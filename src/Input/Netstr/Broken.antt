-- ===== src/Input/Netstr/Broken.antt =====
-- A `NetstrDelimiter` that met an error in a length.
use ekanite.Prelude.{ℕ, ◌≡◌, refl, true, false, [], ◌∷◌, Bytes, map, arith}
use ekanite.Input.Netstr.{NetstrDelimiter, NetstrError, push, reset, Output, push_all}

push-broken :
    (d : NetstrDelimiter) (b : ℕ) → d.broken_mode ≡ true → push d b ≡ (d, false, NetstrError.broken)
unfolding push
push-broken d b h = simp h

push_all-broken :
    (d : NetstrDelimiter) (bs : Bytes)
    → d.broken_mode ≡ true
    → push_all d bs ≡ (d, map (λ _. Output.failure NetstrError.broken) bs)
unfolding push_all
push_all-broken d [] h = refl
push_all-broken d (b ∷ bs) h = rw (push-broken d b h) (rw (push_all-broken d bs h))

-- `Reset` does not bring a broken delimiter back to its initial state: whatever is pushed then,
-- every byte is answered with the error `broken`, and the delimiter stays as it is.
pub push_all-reset-broken :
    (d : NetstrDelimiter) (bs : Bytes)
    → d.broken_mode ≡ true
    → push_all (reset d) bs ≡ (reset d, map (λ _. Output.failure NetstrError.broken) bs)
push_all-reset-broken d bs h = push_all-broken (reset d) bs (unfold reset in ground arith)
