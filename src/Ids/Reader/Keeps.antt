-- ===== src/Ids/Reader/Keeps.antt =====
-- Every operation of the readers keeps them separate.
use h4ckrth0n.Prelude.{
  ℕ, ◌+◌, ◌≤◌, ◌≡◌, refl, sym, ap, ◌∙◌, subst, Bool, true, false, ◌⊎◌, inl, inr, some, eqb, arith,
  Every, Every-imp, if◌then◌else◌, Bool-cases,
}
use h4ckrth0n.Ids.Reader.{
  Entropy, Reader, Tls, Machine, set_slot, kept, read, fork, is_pid, empty_tls,
  clear_tls_after_fork_child,
}
use h4ckrth0n.Ids.Reader.Invariant.{EndsBy, Live, Separate, set_slot-cases}

pub some_inj : {r q : Reader} → some r ≡ some q → r ≡ q
some_inj h = cc

-- A slot whose reader is used again keeps being so when the reader moves on.
kept-moved :
    (hook : Bool) (pid : ℕ) (tls : Tls) (r r' : Reader)
    → kept hook pid tls ≡ some r
    → kept hook pid (record tls { reader = some r' }) ≡ some r'
unfolding kept
kept-moved true pid tls r r' h = refl
kept-moved false pid tls r r' h = ground (arith, h)

module _ (e : Entropy) (hook : Bool) where
  -- The thread that reads: the part of the stream that it has read is behind its reader.
  pub read-Separate :
      (pid tid nbytes : ℕ) (r : Reader) (m : Machine)
      → Separate e hook m
      → Live hook m pid tid r
      → Separate e hook (read pid tid r nbytes m)
  unfolding read
  read-Separate pid tid nbytes r m v live = record {
    ahead = λ p t q l. elim (which p t q l) [
      | inl (_, _, same) ↦
          subst (λ x. Every (EndsBy x.absorbed x.squeezed) m'.log) (sym same) ahead_now
      | inr (other, l') ↦ (
        λ same. let (a, b) = v.own pid tid p t r q live l' same in absurd (other (sym a, sym b)),
        v.ahead p t q l',
      )
    ];
    own = λ p t p' t' q q' l l' same. elim (which p t q l) [
      | inl (a, b, c) ↦ elim (which p' t' q' l') [
        | inl (a', b', _) ↦ (a ∙ sym a', b ∙ sym b')
        | inr (other, k') ↦
            let (x, y) = v.own pid tid p' t' r q' live k' (ap (λ z. z.absorbed) (sym c) ∙ same) in
            absurd (other (sym x, sym y))
      ]
      | inr (other, k) ↦ elim (which p' t' q' l') [
        | inl (a', b', c') ↦
            let (x, y) = v.own p t pid tid q r k live (same ∙ ap (λ z. z.absorbed) c') in
            absurd (other (x, y))
        | inr (_, k') ↦ v.own p t p' t' q q' k k' same
      ]
    ];
    drawn = λ p t q l. elim (which p t q l) [
      | inl (_, _, same) ↦ rw same (v.drawn pid tid r live)
      | inr (_, l') ↦ v.drawn p t q l'
    ];
    logged = (v.drawn pid tid r live, v.logged);
    apart = (v.ahead pid tid r live, v.apart);
  }
    where
      r' : Reader
      r' = record r { squeezed = r.squeezed + nbytes }

      moved : Tls
      moved = record (m.slots pid tid) { reader = some r' }

      m' : Machine
      m' = read pid tid r nbytes m

      ahead_now : Every (EndsBy r'.absorbed r'.squeezed) m'.log
      ahead_now = (
        λ _. omega arith,
        Every-imp (λ d ends h. let now : d.start + d.nbytes ≤ r.squeezed = ends h in omega arith)
            m.log (v.ahead pid tid r live),
      )

      -- A live reader is the one that read, or one that was live.
      which :
          (p t : ℕ) (q : Reader)
          → Live hook m' p t q
          → ((p ≡ pid) × (t ≡ tid) × (q ≡ r')) ⊎ (((p ≡ pid) × (t ≡ tid) → ⊥) × Live hook m p t q)
      which p t q l = elim (set_slot-cases pid tid moved m.slots p t) [
        | inl (a, b, c) ↦ inl (a, b, same_reader a c)
        | inr (other, c) ↦ inr (other, ap (kept hook p) (sym c) ∙ l)
      ]
        where
          same_reader : p ≡ pid → m'.slots p t ≡ moved → q ≡ r'
          same_reader a c = some_inj (
              sym l
              ∙ ap (kept hook p) c
              ∙ subst (λ x. kept hook x moved ≡ some r') (sym a)
                  (kept-moved hook pid (m.slots pid tid) r r' live))

  -- Fewer slots in use are still separate: a fork and a start bring no reader into use.
  fewer-Separate :
      (slots : ℕ → ℕ → Tls) (m : Machine)
      → Separate e hook m
      → ((p t : ℕ) (q : Reader) → kept hook p (slots p t) ≡ some q → Live hook m p t q)
      → Separate e hook (record m { slots = slots })
  fewer-Separate slots m v was = record {
    ahead = λ p t q l. v.ahead p t q (was p t q l);
    own = λ p t p' t' q q' l l'. v.own p t p' t' q q' (was p t q l) (was p' t' q' l');
    drawn = λ p t q l. v.drawn p t q (was p t q l);
    logged = v.logged;
    apart = v.apart;
  }

  none_kept : (p : ℕ) (q : Reader) → kept hook p empty_tls ≡ some q → ⊥
  unfolding kept
  none_kept p q l = ground (arith, l)

  pub starts-Separate :
      (pid tid : ℕ) (m : Machine)
      → Separate e hook m
      → Separate e hook (record m { slots = set_slot pid tid empty_tls m.slots })
  starts-Separate pid tid m v = fewer-Separate (set_slot pid tid empty_tls m.slots) m v was
    where
      was :
          (p t : ℕ) (q : Reader)
          → kept hook p (set_slot pid tid empty_tls m.slots p t) ≡ some q
          → Live hook m p t q
      was p t q l = elim (set_slot-cases pid tid empty_tls m.slots p t) [
        | inl (_, _, c) ↦ absurd (none_kept p q (ap (kept hook p) (sym c) ∙ l))
        | inr (_, c) ↦ ap (kept hook p) (sym c) ∙ l
      ]

  inherited_unused :
      (child : ℕ) (tls : Tls) (q : Reader)
      → (hook ≡ true) ⊎ (is_pid tls.pid child ≡ false)
      → kept hook child (if hook then clear_tls_after_fork_child tls else tls) ≡ some q
      → ⊥
  unfolding kept clear_tls_after_fork_child
  inherited_unused child tls q (inl h) l = ground (arith, l, h)
  inherited_unused child tls q (inr h) l = ground (arith, l, h)

  pub fork-Separate :
      (pid tid child : ℕ) (m : Machine)
      → (hook ≡ true) ⊎ (is_pid (m.slots pid tid).pid child ≡ false)
      → Separate e hook m
      → Separate e hook (fork hook pid tid child m)
  unfolding fork
  fork-Separate pid tid child m new v = fewer-Separate _ m v was
    where
      tls : Tls
      tls = if hook then clear_tls_after_fork_child (m.slots pid tid) else m.slots pid tid

      others : ℕ → ℕ → Tls
      others p t = if eqb p child then empty_tls else m.slots p t

      was :
          (p t : ℕ) (q : Reader)
          → kept hook p (set_slot child tid tls others p t) ≡ some q
          → Live hook m p t q
      was p t q l = elim (set_slot-cases child tid tls others p t) [
        | inl (a, _, c) ↦ absurd (
            inherited_unused child (m.slots pid tid) q new
              (subst (λ x. kept hook x tls ≡ some q) a (ap (kept hook p) (sym c) ∙ l)))
        | inr (_, c) ↦
            let l' : kept hook p (others p t) ≡ some q = ap (kept hook p) (sym c) ∙ l in
            elim (Bool-cases (eqb p child)) [
              | inl d ↦
                  absurd (none_kept p q (let k : kept hook p empty_tls ≡ some q = rw d at l' in k))
              | inr d ↦ rw d at l'
            ]
      ]
