-- ===== src/Batcher/Order.antt =====
-- Where the events are that the senders put in the channel of a `Batcher`.
use ekanite.Prelude.{
  ◌≤◌, ◌≡◌, refl, ap, ◌∙◌, Bool, true, false, List, [], ◌∷◌, ◌++◌, ◌==◌, if◌then◌else◌, Bool-cases,
  inl, inr, append-nil, append_assoc, length, length-append, arith,
}
use ekanite.Batcher.{
  Batcher, Loop, Call, EventIndexer, start, added, sent, send, on_event, on_timeout, Run, begin,
  put, hand_over, receive, expire, timeout,
}

module _ {ℓ} {E : Type ℓ} where
  -- The events of the calls that returned no error, in order.
  abbrev pub delivered : List (Call E) → List E
  delivered [] = []
  delivered (c ∷ cs) = (if c.failed then [] else c.events) ++ delivered cs

  pub delivered-append :
      (xs ys : List (Call E)) → delivered (xs ++ ys) ≡ delivered xs ++ delivered ys
  delivered-append [] ys = refl
  delivered-append (c ∷ xs) ys = simp (delivered-append xs ys, append_assoc)

  snoc-held :
      (taken batch queue : List E) (e : E)
      → taken ++ (batch ++ (queue ++ e ∷ [])) ≡ (taken ++ (batch ++ queue)) ++ e ∷ []
  snoc-held taken batch queue e = simp append_assoc

  cons-snoc : (e : E) (queue : List E) → queue ≡ [] → e ∷ queue ≡ queue ++ e ∷ []
  cons-snoc e queue h = rw h

module _ {ℓ} {E W : Type ℓ} where
  -- What the indexer has taken, then the batch, then the channel.
  abbrev pub held : Loop E W → List E
  held s = delivered s.calls ++ (s.batch ++ s.queue)

  sent-held :
      (b : Batcher) (s : Loop E W) (failed : Bool) (w : W) → held (sent b s failed w) ≡ held s
  unfolding sent
  sent-held b s true w = simp (delivered-append, append-nil)
  sent-held b s false w = simp (delivered-append, append-nil, append_assoc)

  sent-queue :
      (b : Batcher) (s : Loop E W) (failed : Bool) (w : W) → (sent b s failed w).queue ≡ s.queue
  unfolding sent
  sent-queue b s true w = refl
  sent-queue b s false w = refl

  module _ (index : EventIndexer E W) (b : Batcher) where
    -- What holds of a loop before and after `send` holds after `on_event`.
    pub on_event_ind {κ} :
        (P : Loop E W → Type κ) (e : E) (s : Loop E W)
        → ((length (added e s).batch == b.size) ≡ false → P (added e s))
        → ((length (added e s).batch == b.size) ≡ true
            → P (
                send index b
                  (record (added e s) { timer = record ((added e s).timer) { running = false } })))
        → P (on_event index b e s)
    unfolding on_event
    on_event_ind P e s kept full = elim (Bool-cases (length (added e s).batch == b.size)) [
      | inl h ↦ rw h (full h)
      | inr h ↦ rw h (kept h)
    ]

    send-held : (s : Loop E W) → held (send index b s) ≡ held s
    unfolding send
    send-held s = let (failed, w) = index s.indexer s.batch in sent-held b s failed w

    send-queue : (s : Loop E W) → (send index b s).queue ≡ s.queue
    unfolding send
    send-queue s = let (failed, w) = index s.indexer s.batch in sent-queue b s failed w

    on_event-held :
        (e : E) (s : Loop E W)
        → held (on_event index b e s) ≡ delivered s.calls ++ (s.batch ++ (e ∷ s.queue))
    on_event-held e s =
        on_event_ind (λ t. held t ≡ delivered s.calls ++ (s.batch ++ (e ∷ s.queue))) e s
          (λ _. simp append_assoc) (λ _. send-held _ ∙ simp append_assoc)

    on_event-queue : (e : E) (s : Loop E W) → (on_event index b e s).queue ≡ s.queue
    on_event-queue e s = on_event_ind (λ t. t.queue ≡ s.queue) e s (λ _. refl) (λ _. send-queue _)

    on_timeout-held : (s : Loop E W) → held (on_timeout index b s) ≡ held s
    unfolding on_timeout
    on_timeout-held s = send-held _

    queue_bound :
        {origin : Loop E W} {es : List E} {s : Loop E W}
        → length origin.queue ≤ b.max
        → Run index b origin es s
        → length s.queue ≤ b.max
    unfolding on_timeout
    queue_bound le begin = le
    queue_bound le (put {s} e r h) = omega (arith, length-append s.queue (e ∷ []))
    queue_bound le (hand_over {s} e r h) = rw (on_event-queue e s) (queue_bound le r)
    queue_bound le (receive {s} e q r h) =
        rw on_event-queue (omega (arith, queue_bound le r, ap length h))
    queue_bound le (expire r h) = queue_bound le r
    queue_bound le (timeout {s} r h) = rw send-queue (queue_bound le r)

    queue_unbuffered : (s : Loop E W) → length s.queue ≤ b.max → b.max ≡ 0 → s.queue ≡ []
    queue_unbuffered s le zero_max = grind arith

    pub Run-held_from :
        {origin : Loop E W} {es : List E} {s : Loop E W}
        → length origin.queue ≤ b.max
        → Run index b origin es s
        → held s ≡ held origin ++ es
    Run-held_from le begin = rw append-nil
    Run-held_from le (put {es} {s} e r h) =
        snoc-held (delivered s.calls) s.batch s.queue e
        ∙ ap (λ l. l ++ e ∷ []) (Run-held_from le r)
        ∙ append_assoc _ es (e ∷ [])
    Run-held_from le (hand_over {es} {s} e r h) =
        on_event-held e s
        ∙ ap (λ l. delivered s.calls ++ (s.batch ++ l))
            (cons-snoc e s.queue (queue_unbuffered s (queue_bound le r) h))
        ∙ snoc-held (delivered s.calls) s.batch s.queue e
        ∙ ap (λ l. l ++ e ∷ []) (Run-held_from le r)
        ∙ append_assoc _ es (e ∷ [])
    Run-held_from le (receive {s} e q r h) = on_event-held e _ ∙ rw (← h) (Run-held_from le r)
    Run-held_from le (expire r h) = Run-held_from le r
    Run-held_from le (timeout {s} r h) = on_timeout-held s ∙ Run-held_from le r

    -- Every event that was put in the channel is, in the order of the sends, in one of the calls
    -- that the indexer answered with no error, in the batch or in the channel, and nothing else is:
    -- whatever the indexer answers and whenever the timer runs out.
    pub Run-held :
        (w : W) {es : List E} {s : Loop E W}
        → Run index b (start w) es s
        → delivered s.calls ++ (s.batch ++ s.queue) ≡ es
    Run-held w r = Run-held_from (omega arith) r
