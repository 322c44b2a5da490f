-- ===== src/Input/Collector/Serving/Order.antt =====
-- What each connection sends, among all others.
use ekanite.Prelude.{
  ℕ, ◌≡◌, refl, sym, ap, subst, ◌∙◌, Bool, true, false, List, [], ◌∷◌, ◌++◌, append-nil, Bytes, All,
  All-append, All-imp, if◌then◌else◌,
}
use ekanite.Input.Handler.{LogHandler}
use ekanite.Input.Event.{Event}
use ekanite.Input.Collector.Tcp.{Read, Stats, Connection, new_connection, on_read, reads}
use ekanite.Input.Collector.Serving.{
  Goroutine, Traffic, at_number, after_read, begin, Serves, start, accept_fails, accept, read, send,
  take_elsewhere,
}
use ekanite.Input.Collector.Serving.Alike.{
  IsAlike, on_read-IsAlike, behind, on_read-behind, all_said,
}

-- The items of one list are in the other one, in their order.
pub data IsSublist {A : Type 0} : List A → List A → Type 0 where
  nil : IsSublist [] []
  keep : {xs ys : List A} (x : A) → IsSublist xs ys → IsSublist (x ∷ xs) (x ∷ ys)
  skip : {xs ys : List A} (y : A) → IsSublist xs ys → IsSublist xs (y ∷ ys)

keep_last :
    {A : Type 0} {xs ys : List A} (e : A)
    → IsSublist xs ys
    → IsSublist (xs ++ e ∷ []) (ys ++ e ∷ [])
keep_last e IsSublist.nil = IsSublist.keep e IsSublist.nil
keep_last e (IsSublist.keep x s) = IsSublist.keep x (keep_last e s)
keep_last e (IsSublist.skip y s) = IsSublist.skip y (keep_last e s)

skip_last : {A : Type 0} {xs ys : List A} (e : A) → IsSublist xs ys → IsSublist xs (ys ++ e ∷ [])
skip_last e IsSublist.nil = IsSublist.skip e IsSublist.nil
skip_last e (IsSublist.keep x s) = IsSublist.keep x (skip_last e s)
skip_last e (IsSublist.skip y s) = IsSublist.skip y (skip_last e s)

empty_sublist : {A : Type 0} (ys : List A) → IsSublist [] ys
empty_sublist [] = IsSublist.nil
empty_sublist (y ∷ ys) = IsSublist.skip y (empty_sublist ys)

All-split :
    {A : Type 0} (P : A → Type 0) (before : List A) (x : A) (after : List A)
    → All P (before ++ x ∷ after)
    → All P before × P x × All P after
All-split P [] x after (h, hs) = (tt, h, hs)
All-split P (y ∷ before) x after (h, hs) =
    let (bs, b, as_) = All-split P before x after hs in ((h, bs), b, as_)

module _ {Time : Type 0} (zero_time : Time) where
  reads-snoc :
      (c : Connection Time) (rs : List (Read × Time)) (now : Time) (r : Read)
      → (reads zero_time c rs).closed ≡ false
      → reads zero_time c (rs ++ (r, now) ∷ []) ≡ on_read zero_time (reads zero_time c rs) now r
  unfolding reads
  reads-snoc c [] now r h = ap (λ b. if b then c else on_read zero_time c now r) h
  reads-snoc c ((r', now') ∷ rs) now r h =
      let c' = on_read zero_time c now' r' in
      go c.closed refl (reads zero_time c' (rs ++ (r, now) ∷ [])) (reads zero_time c' rs)
        (reads-snoc c' rs now r) h
    where
      go :
          (b : Bool)
          → c.closed ≡ b
          → (long short : Connection Time)
          → (short.closed ≡ false → long ≡ on_read zero_time short now r)
          → (if b then c else short).closed ≡ false
          → (if b then c else long) ≡ on_read zero_time (if b then c else short) now r
      go true e long short ih h = absurd (cc)
      go false e long short ih h = ih h

  -- The connection is as it would be alone, and what it has sent is in the channel, in order.
  pub record IsOwn (channel : List (Event Time)) (g : Goroutine Time) : Type 0 where
    pub alone :
        IsAlike zero_time g.connection
          (reads zero_time (new_connection zero_time g.handler g.opening 0 g.remote) g.history)
    pub delivered : List (Event Time)
    pub all_sent : g.connection.sent ≡ delivered ++ g.pending
    pub in_order : IsSublist delivered channel

  after_read-IsOwn :
      (channel : List (Event Time)) (n : ℕ) (g : Goroutine Time) (now : Time) (r : Read)
      → g.connection.closed ≡ false
      → g.pending ≡ []
      → IsOwn channel g
      → IsOwn channel (after_read zero_time n g now r).1
  unfolding after_read
  after_read-IsOwn channel n g now r opened idle o = record {
    alone =
        let c = g.connection in
        let c₀ = new_connection zero_time g.handler g.opening 0 g.remote in
        let lone = reads zero_time c₀ g.history in
        let before : IsAlike zero_time (behind zero_time c.sent (at_number zero_time n c)) lone =
          record {
            parser = o.alone.parser;
            delimiter = o.alone.delimiter;
            remote = o.alone.remote;
            closed = o.alone.closed;
            sent = ap (all_said zero_time) (append-nil c.sent) ∙ o.alone.sent;
          } in
        let both = on_read-IsAlike zero_time _ lone now r before in
        subst (λ x. IsAlike zero_time x (reads zero_time c₀ (g.history ++ (r, now) ∷ [])))
          (on_read-behind zero_time c.sent (at_number zero_time n c) now r)
          (subst
            (IsAlike zero_time
              (on_read zero_time (behind zero_time c.sent (at_number zero_time n c)) now r))
            (sym (reads-snoc c₀ g.history now r (sym o.alone.closed ∙ opened))) both);
    delivered = g.connection.sent;
    all_sent = refl;
    in_order =
        subst (λ l. IsSublist l channel)
          (sym (o.all_sent ∙ ap (λ l. o.delivered ++ l) idle ∙ append-nil o.delivered)) o.in_order;
  }

  after_send-IsOwn :
      (channel : List (Event Time)) (g : Goroutine Time) (e : Event Time)
      → g.pending ≡ e ∷ []
      → IsOwn channel g
      → IsOwn (channel ++ e ∷ []) (record g { pending = [] })
  after_send-IsOwn channel g e waits o = record {
    alone = o.alone;
    delivered = o.delivered ++ e ∷ [];
    all_sent =
        o.all_sent ∙ ap (λ l. o.delivered ++ l) waits ∙ sym (append-nil (o.delivered ++ e ∷ []));
    in_order = keep_last e o.in_order;
  }

  other_send-IsOwn :
      (channel : List (Event Time)) (e : Event Time) (g : Goroutine Time)
      → IsOwn channel g
      → IsOwn (channel ++ e ∷ []) g
  other_send-IsOwn channel e g o = record {
    alone = o.alone;
    delivered = o.delivered;
    all_sent = o.all_sent;
    in_order = skip_last e o.in_order;
  }

  begin-IsOwn :
      (channel : List (Event Time)) (h : LogHandler) (stats : Stats) (remote : Bytes)
      → IsOwn channel (begin zero_time h stats remote)
  unfolding reads
  begin-IsOwn channel h stats remote = record {
    alone = record { parser = refl; delimiter = refl; remote = refl; closed = refl; sent = refl };
    delivered = [];
    all_sent = refl;
    in_order = empty_sublist channel;
  }

  -- However the goroutines of the connections take turns, each connection has made the events that it
  -- would make alone of the bytes that it has read, with the same texts, fields and addresses, and
  -- those that it has sent are in the channel, in the order in which it made them.
  pub Serves-IsOwn :
      (format : Bytes) (n : ℕ) (w : Traffic Time)
      → Serves zero_time format n w
      → All (IsOwn w.channel) w.goroutines
  Serves-IsOwn format n _ start = tt
  Serves-IsOwn format n w (accept_fails s) = Serves-IsOwn format n w s
  Serves-IsOwn format n _ (accept {w} {h} stats remote s made) =
      (begin-IsOwn w.channel h stats remote, Serves-IsOwn format n w s)
  Serves-IsOwn format n _ (take_elsewhere {w} s) = Serves-IsOwn format n w s
  Serves-IsOwn format n _ (read {w} before g after now r s split opened idle) =
      let all = subst (All (IsOwn w.channel)) split (Serves-IsOwn format n w s) in
      let (bs, o, as_) = All-split (IsOwn w.channel) before g after all in
      All-append (IsOwn w.channel) before _ bs
        (after_read-IsOwn w.channel w.sequence g now r opened idle o, as_)
  Serves-IsOwn format n _ (send {w} before g after e s split waits) =
      let all = subst (All (IsOwn w.channel)) split (Serves-IsOwn format n w s) in
      let (bs, o, as_) = All-split (IsOwn w.channel) before g after all in
      let others = All-imp (other_send-IsOwn w.channel e) in
      All-append (IsOwn (w.channel ++ e ∷ [])) before _ (others before bs)
        (after_send-IsOwn w.channel g e waits o, others after as_)
