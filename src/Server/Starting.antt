-- ===== src/Server/Starting.antt =====
-- server.go and server_http.go: how both servers are made and started. `listen` is `net.Listen`, with the
-- address of the listener; connections are accepted in goroutines of their own.
use ekanite.Prelude.{Option, none, some, Bytes}

-- What `Start` leaves of its listener, and whether it returned an error.
pub data Started : Type 0 where
  no_listener closed serving : Started

-- The fields of a `Server` but its searcher and its logger.
pub record QueryServer (Addr : Type 0) : Type 0 where
  pub iface : Bytes
  pub addr : Option Addr

pub record HttpServer (Addr Template : Type 0) : Type 0 where
  pub iface : Bytes
  pub addr : Option Addr
  pub template : Option Template

module _ {Addr : Type 0} where
  -- `NewServer`
  abbrev pub new_server : Bytes → QueryServer Addr
  new_server iface = record { iface = iface; addr = none }

  module _ (listen : Bytes → Option Addr) where
    -- `Start` of a `Server`
    unfoldable pub start : QueryServer Addr → QueryServer Addr × Started
    start s = elim (listen s.iface) [
      | none ↦ (s, no_listener)
      | some a ↦ (record s { addr = some a }, serving)
    ]

    -- `Start` of an `HTTPServer`, over what the parse of the template gives: where that is an error,
    -- the listener is closed, and the server keeps its address.
    unfoldable pub start_http :
        {Template : Type 0}
        → Option Template
        → HttpServer Addr Template
        → HttpServer Addr Template × Started
    start_http parsed s = elim (listen s.iface) [
      | none ↦ (s, no_listener)
      | some a ↦ (
        record s { addr = some a; template = parsed },
        elim parsed [ none ↦ closed | some t ↦ serving ],
      )
    ]

-- `NewHTTPServer`
abbrev pub new_http_server : {Addr Template : Type 0} → Bytes → HttpServer Addr Template
new_http_server iface = record { iface = iface; addr = none; template = none }
