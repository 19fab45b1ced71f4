-- ===== src/Llm/Limit.antt =====
-- The concurrency limit of the asynchronous client.
use h4ckrth0n.Prelude.{
  ℕ, ◌+◌, ◌≤◌, ◌≡◌, inl, inr, true, false, not, ◌&&◌, List, [], ◌∷◌, length, ltb, arith, Bool-cases,
}
use h4ckrth0n.Llm.{
  Slots, new_slots, none_wait, enter, is_in, remove, release, leave, CallEvent, calls, answered,
  serve, serve_all,
}

-- All places are accounted for, and nobody waits while one is free.
record IsFair (limit : ℕ) (s : Slots) : Type 0 where
  placed : length s.running + s.free ≡ limit
  eager : (ltb 0 s.free && not (none_wait s.waiting)) ≡ false

new_slots-IsFair : (limit : ℕ) → IsFair limit (new_slots limit)
unfolding new_slots
new_slots-IsFair limit = record { placed = omega arith; eager = ground arith }

enter-IsFair : (limit call : ℕ) (s : Slots) → IsFair limit s → IsFair limit (enter call s)
unfolding enter
enter-IsFair limit call s v = elim (Bool-cases (ltb 0 s.free && none_wait s.waiting)) [
  | inl e ↦
      rw e (record { placed = ground (arith, v.placed, e); eager = ground (arith, v.eager, e) })
  | inr e ↦
      let full : ltb 0 s.free ≡ false = ground (arith, v.eager, e) in
      rw e (record { placed = v.placed; eager = rw full })
]

length-remove :
    (call : ℕ) (l : List ℕ) → is_in call l ≡ true → length (remove call l) + 1 ≡ length l
unfolding is_in remove
length-remove call [] h = cc
length-remove call (i ∷ l) h = let rest = length-remove call l in ground (arith, h, rest)

release-IsFair :
    (limit : ℕ) (w : List ℕ) (s : Slots)
    → length s.running + s.free + 1 ≡ limit
    → (ltb 0 s.free && not (none_wait w)) ≡ false
    → IsFair limit (release w s)
unfolding release
release-IsFair limit [] s p e = record { placed = omega arith; eager = ground (arith, e) }
release-IsFair limit (i ∷ l) s p e =
    let full : ltb 0 s.free ≡ false = ground (arith, e) in
    record { placed = omega arith; eager = rw full }

leave-IsFair : (limit call : ℕ) (s : Slots) → IsFair limit s → IsFair limit (leave call s)
unfolding leave
leave-IsFair limit call s v = elim (Bool-cases (is_in call s.running)) [
  | inr e ↦ rw e v
  | inl e ↦
      let fewer = length-remove call s.running e in
      rw e (
        release-IsFair limit s.waiting (record s { running = remove call s.running })
          (omega (arith, fewer, v.placed)) v.eager)
]

serve_all-IsFair :
    (limit : ℕ) (events : List CallEvent) (s : Slots)
    → IsFair limit s
    → IsFair limit (serve_all events s)
unfolding serve_all serve
serve_all-IsFair limit [] s v = v
serve_all-IsFair limit (calls call ∷ events) s v =
    serve_all-IsFair limit events (enter call s) (enter-IsFair limit call s v)
serve_all-IsFair limit (answered call ∷ events) s v =
    serve_all-IsFair limit events (leave call s) (leave-IsFair limit call s v)

-- After any calls and answers the requests with the provider and the free places together are the
-- limit, so no more than the limit are with the provider; and no call waits while a place is free.
pub concurrency_bounds :
    (limit : ℕ) (events : List CallEvent)
    → (length (serve_all events (new_slots limit)).running
          + (serve_all events (new_slots limit)).free
        ≡ limit)
      × (length (serve_all events (new_slots limit)).running ≤ limit)
      × ((ltb 0 (serve_all events (new_slots limit)).free
            && not (none_wait (serve_all events (new_slots limit)).waiting))
          ≡ false)
concurrency_bounds limit events = (v.placed, omega (arith, v.placed), v.eager)
  where
    v : IsFair limit (serve_all events (new_slots limit))
    v = serve_all-IsFair limit events (new_slots limit) (new_slots-IsFair limit)
