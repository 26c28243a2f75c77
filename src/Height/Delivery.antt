-- ===== src/Height/Delivery.antt =====
-- What the subscribers of the height monitor receive.
use mathlib.Core.List.{append_assoc, append-nil, map-append}
use wemixvisor.Base.{
  ℕ, zero, suc, ◌≡◌, refl, sym, ap, ◌∙◌, Option, none, some, true, false, List, [], ◌∷◌, ◌++◌, map,
  length, take, arith, Bool-cases, inl, inr, ltb, if◌then◌else◌,
}
use wemixvisor.Base.Int.{ℤ, eq_ℤ}
use wemixvisor.Height.{
  HeightMonitor, default_subscriber_buffer_size, send, notify_subscribers, poll, poll_all,
  subscribe,
}

-- the heights that differ from the one before, out of what the provider answered
abbrev pub changes : ℤ → List (Option ℤ) → List ℤ
changes h [] = []
changes h (none ∷ answers) = changes h answers
changes h (some x ∷ answers) = if eq_ℤ x h then changes h answers else x ∷ changes x answers

abbrev pub deliver : List ℤ → List ℤ → List ℤ
deliver [] ch = ch
deliver (h ∷ hs) ch = deliver hs (send h ch)

take_nil : (n : ℕ) → take {A = ℤ} n [] ≡ []
take_nil zero = refl
take_nil (suc n) = refl

take-append :
    (n : ℕ) (xs : List ℤ) (x : ℤ)
    → (if ltb (length (take n xs)) n then take n xs ++ x ∷ [] else take n xs)
      ≡ take n (xs ++ x ∷ [])
take-append zero [] x = refl
take-append zero (y ∷ xs) x = refl
take-append (suc n) [] x = ground (arith, take_nil n)
take-append (suc n) (y ∷ xs) x = ground (arith, take-append n xs x)

send-take :
    (x : ℤ) (xs : List ℤ)
    → send x (take default_subscriber_buffer_size xs)
      ≡ take default_subscriber_buffer_size (xs ++ x ∷ [])
unfolding send
send-take x xs = take-append default_subscriber_buffer_size xs x

deliver-take :
    (hs xs : List ℤ)
    → deliver hs (take default_subscriber_buffer_size xs)
      ≡ take default_subscriber_buffer_size (xs ++ hs)
deliver-take [] xs = rw (append-nil xs)
deliver-take (h ∷ hs) xs =
    rw (send-take h xs)
      (deliver-take hs (xs ++ h ∷ []) ∙ ap (take 10) (append_assoc xs (h ∷ []) hs))

map-deliver_nil : (chs : List (List ℤ)) → chs ≡ map (deliver []) chs
map-deliver_nil [] = refl
map-deliver_nil (ch ∷ chs) = ap (ch ∷◌) (map-deliver_nil chs)

map-deliver_cons :
    (h : ℤ) (hs : List ℤ) (chs : List (List ℤ))
    → map (deliver hs) (map (send h) chs) ≡ map (deliver (h ∷ hs)) chs
map-deliver_cons h hs [] = refl
map-deliver_cons h hs (ch ∷ chs) = ap (deliver hs (send h ch) ∷◌) (map-deliver_cons h hs chs)

poll-none : (m : HeightMonitor) → poll none m ≡ m
unfolding poll
poll-none m = refl

poll_same : (x : ℤ) (m : HeightMonitor) → eq_ℤ x m.current_height ≡ true → poll (some x) m ≡ m
unfolding poll
poll_same x m e = ground arith

poll_new :
    (x : ℤ) (m : HeightMonitor)
    → eq_ℤ x m.current_height ≡ false
    → poll (some x) m ≡ notify_subscribers x (record m { current_height = x })
unfolding poll
poll_new x m e = ground arith

subscribers-poll_all :
    (answers : List (Option ℤ)) (m : HeightMonitor)
    → (poll_all answers m).subscribers
      ≡ map (deliver (changes m.current_height answers)) m.subscribers
unfolding poll_all notify_subscribers
subscribers-poll_all [] m = map-deliver_nil m.subscribers
subscribers-poll_all (none ∷ answers) m =
    ap (λ k. (poll_all answers k).subscribers) (poll-none m) ∙ subscribers-poll_all answers m
subscribers-poll_all (some x ∷ answers) m = elim (Bool-cases (eq_ℤ x m.current_height)) [
  | inl e ↦ rw e (
      ap (λ k. (poll_all answers k).subscribers) (poll_same x m e) ∙ subscribers-poll_all answers m)
  | inr e ↦ rw e (
      ap (λ k. (poll_all answers k).subscribers) (poll_new x m e)
      ∙ subscribers-poll_all answers (notify_subscribers x (record m { current_height = x }))
      ∙ map-deliver_cons x (changes x answers) m.subscribers)
]

-- A new subscriber's channel, if it is not read while the provider answers `answers`, holds the
-- first ten of the heights that differ from the one before, in their order; an answer that is an
-- error or the height already known sends nothing, and what the other subscribers receive does not
-- depend on the new one.
pub poll_all-subscribe :
    (answers : List (Option ℤ)) (m : HeightMonitor)
    → (poll_all answers (subscribe m)).subscribers
      ≡ (poll_all answers m).subscribers
        ++ take default_subscriber_buffer_size (changes m.current_height answers) ∷ []
unfolding subscribe
poll_all-subscribe answers m =
    subscribers-poll_all answers (record m { subscribers = m.subscribers ++ [] ∷ [] })
    ∙ map-append (deliver (changes m.current_height answers)) m.subscribers ([] ∷ [])
    ∙ ap (λ l. l ++ deliver (changes m.current_height answers) [] ∷ [])
        (sym (subscribers-poll_all answers m))
    ∙ ap (λ ch. (poll_all answers m).subscribers ++ ch ∷ [])
        (deliver-take (changes m.current_height answers) [])
