-- ===== src/Ids/Reader/Disjoint.antt =====
-- No byte of a stream is handed out twice, in whatever processes and threads.
use h4ckrth0n.Prelude.{
  ℕ, ◌+◌, ◌≡◌, refl, sym, ap, ◌∙◌, subst, Bool, true, false, leb, ◌⊎◌, inl, inr, Option, none, some,
  List, [], ◌∷◌, eqb_iff, arith, Every, Every-imp, if◌then◌else◌, Bool-cases, Option-cases,
}
use h4ckrth0n.Ids.Reader.{
  Entropy, Reader, Tls, Machine, new_reader, set_slot, kept, fresh_reader, thread_reader, start,
  Event, asks, forks, starts, random_bytes_in, step, replay, is_new_child, all_new_children,
}
use h4ckrth0n.Ids.Reader.Invariant.{EndsBy, Apart, Live, Drawn, Separate, set_slot-cases, same_draw}
use h4ckrth0n.Models.{Bytes}
use h4ckrth0n.Ids.Reader.Keeps.{some_inj, read-Separate, starts-Separate, fork-Separate}

kept-made :
    (hook : Bool) (pid : ℕ) (old : Option ℕ) (r : Reader)
    → kept hook pid (record { reader = some r; pid = if hook then old else some pid }) ≡ some r
unfolding kept
kept-made true pid old r = refl
kept-made false pid old r = rw ((eqb_iff pid pid).1 refl)

module _ (e : Entropy) (hook : Bool)
    (distinct : (i j : ℕ) → e.urandom i ≡ e.urandom j → i ≡ j) where
  -- A new reader's stream is new.
  not-Drawn : (t : ℕ) (n : ℕ) {a : _} → a ≡ (new_reader e t n).absorbed → Drawn e n a → ⊥
  not-Drawn t n same (t', k, below, made) =
      let now : n ≡ k = same_draw e distinct t n t' k (sym same ∙ made) in omega arith

  later-Drawn : (n : ℕ) {a : _} → Drawn e n a → Drawn e (n + 1) a
  later-Drawn n (t, k, below, made) = (t, k, omega arith, made)

  fresh_reader-Separate :
      (pid tid : ℕ) (m : Machine)
      → Separate e hook m
      → Separate e hook (fresh_reader e hook pid tid m).1
        × Live hook (fresh_reader e hook pid tid m).1 pid tid (fresh_reader e hook pid tid m).0
  unfolding fresh_reader
  fresh_reader-Separate pid tid m v = (
    record {
      ahead = λ p t q l. elim (which p t q l) [
        | inl (_, _, same) ↦
            subst (λ x. Every (EndsBy x.absorbed x.squeezed) m.log) (sym same) unread
        | inr l' ↦ v.ahead p t q l'
      ];
      own = λ p t p' t' q q' l l' same. elim (which p t q l) [
        | inl (a, b, c) ↦ elim (which p' t' q' l') [
          | inl (a', b', _) ↦ (a ∙ sym a', b ∙ sym b')
          | inr k' ↦
              absurd
                (not-Drawn tid m.drawn (sym same ∙ ap (λ z. z.absorbed) c) (v.drawn p' t' q' k'))
        ]
        | inr k ↦ elim (which p' t' q' l') [
          | inl (a', b', c') ↦
              absurd (not-Drawn tid m.drawn (same ∙ ap (λ z. z.absorbed) c') (v.drawn p t q k))
          | inr k' ↦ v.own p t p' t' q q' k k' same
        ]
      ];
      drawn = λ p t q l. elim (which p t q l) [
        | inl (_, _, same) ↦ (tid, m.drawn, omega arith, ap (λ z. z.absorbed) same)
        | inr l' ↦ later-Drawn m.drawn (v.drawn p t q l')
      ];
      logged = Every-imp (λ c. later-Drawn m.drawn) m.log v.logged;
      apart = v.apart;
    },
    ap (kept hook pid) here ∙ in_use,
  )
    where
      made : Reader
      made = new_reader e tid m.drawn

      tls : Tls
      tls = record { reader = some made; pid = if hook then (m.slots pid tid).pid else some pid }

      in_use : kept hook pid tls ≡ some made
      in_use = kept-made hook pid (m.slots pid tid).pid made

      here : set_slot pid tid tls m.slots pid tid ≡ tls
      here = elim (set_slot-cases pid tid tls m.slots pid tid) [
        | inl (_, _, c) ↦ c
        | inr (other, _) ↦ absurd (other (refl, refl))
      ]

      unread : Every (EndsBy made.absorbed made.squeezed) m.log
      unread = Every-imp (λ d known same. absurd (not-Drawn tid m.drawn same known)) m.log v.logged

      which :
          (p t : ℕ) (q : Reader)
          → kept hook p (set_slot pid tid tls m.slots p t) ≡ some q
          → ((p ≡ pid) × (t ≡ tid) × (q ≡ made)) ⊎ Live hook m p t q
      which p t q l = elim (set_slot-cases pid tid tls m.slots p t) [
        | inl (a, b, c) ↦ inl (
          a,
          b,
          some_inj (
              sym l ∙ ap (kept hook p) c ∙ subst (λ x. kept hook x tls ≡ some made) (sym a) in_use),
        )
        | inr (_, c) ↦ inr (ap (kept hook p) (sym c) ∙ l)
      ]

  -- The two cases of `_thread_reader`.
  abbrev from_slot : ℕ → ℕ → Machine → Option Reader → Reader × Machine
  from_slot pid tid m none = fresh_reader e hook pid tid m
  from_slot pid tid m (some r) = (r, m)

  thread_reader_cases :
      (pid tid : ℕ) (m : Machine) (o : Option Reader)
      → kept hook pid (m.slots pid tid) ≡ o
      → thread_reader e hook pid tid m ≡ from_slot pid tid m o
  unfolding thread_reader
  thread_reader_cases pid tid m none h =
      ap (λ o. elim o [ none ↦ fresh_reader e hook pid tid m | some r ↦ (r, m) ]) h
  thread_reader_cases pid tid m (some r) h =
      ap (λ o. elim o [ none ↦ fresh_reader e hook pid tid m | some r ↦ (r, m) ]) h

  abbrev Ready : ℕ → ℕ → Reader × Machine → Type 0
  Ready pid tid (r, m) = Separate e hook m × Live hook m pid tid r

  thread_reader-Ready :
      (pid tid : ℕ) (m : Machine)
      → Separate e hook m
      → Ready pid tid (thread_reader e hook pid tid m)
  thread_reader-Ready pid tid m v = elim (Option-cases (kept hook pid (m.slots pid tid))) [
    | inl h ↦
        subst (Ready pid tid) (sym (thread_reader_cases pid tid m none h))
          (fresh_reader-Separate pid tid m v)
    | inr (r, live) ↦
        subst (Ready pid tid) (sym (thread_reader_cases pid tid m (some r) live)) (v, live)
  ]

  module _ (shake : Bytes → ℕ → ℕ → Bytes) where
    asks-Separate :
        (pid tid nbytes : ℕ) (m : Machine)
        → Separate e hook m
        → Separate e hook (random_bytes_in shake e hook pid tid nbytes m).1
    unfolding random_bytes_in
    asks-Separate pid tid nbytes m v =
        let (v', live) = thread_reader-Ready pid tid m v in
        let read =
          read-Separate e hook pid tid nbytes (thread_reader e hook pid tid m).0
            (thread_reader e hook pid tid m).1 v' live in
        elim (Bool-cases (leb nbytes 0)) [ inl z ↦ rw z v | inr z ↦ rw z read ]

    step-Separate :
        (event : Event) (m : Machine)
        → is_new_child hook m event ≡ true
        → Separate e hook m
        → Separate e hook (step shake e hook m event)
    unfolding step is_new_child
    step-Separate (asks pid tid nbytes) m new v = asks-Separate pid tid nbytes m v
    step-Separate (starts pid tid) m new v = starts-Separate e hook pid tid m v
    step-Separate (forks pid tid child) m new v =
        fork-Separate e hook pid tid child m
          (elim (Bool-cases hook) [ inl h ↦ inl h | inr h ↦ inr (ground (arith, new, h)) ]) v

    replay-Separate :
        (events : List Event) (m : Machine)
        → all_new_children shake e hook m events ≡ true
        → Separate e hook m
        → Separate e hook (replay shake e hook m events)
    unfolding replay all_new_children
    replay-Separate [] m new v = v
    replay-Separate (event ∷ events) m new v =
        replay-Separate events (step shake e hook m event) (ground (arith, new))
          (step-Separate event m (ground (arith, new)) v)

start-Separate : (e : Entropy) (hook : Bool) → Separate e hook start
unfolding kept
start-Separate e hook = record {
  ahead = λ p t q l. tt;
  own = λ p t p' t' q q' l l'. absurd (ground (arith, l));
  drawn = λ p t q l. absurd (ground (arith, l));
  logged = tt;
  apart = tt;
}

-- If no two draws from the OS are the same, then in every history of requests, forks and thread
-- starts each read of a stream starts at or after the end of all earlier reads of that stream, in
-- whichever process or thread they were. Without the fork hook this needs that a child does not
-- get the process identifier that the slot of the forking thread records.
pub streams_not_reused :
    (shake : Bytes → ℕ → ℕ → Bytes) (e : Entropy) (hook : Bool) (events : List Event)
    → ((i j : ℕ) → e.urandom i ≡ e.urandom j → i ≡ j)
    → all_new_children shake e hook start events ≡ true
    → Apart (replay shake e hook start events).log
streams_not_reused shake e hook events distinct new =
    (replay-Separate e hook distinct shake events start new (start-Separate e hook)).apart
