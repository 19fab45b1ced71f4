-- ===== src/Migrations/Urls.antt =====
-- Normalising a database URL twice is normalising it once, so the entry for async code, which
-- normalises first, does what the synchronous one does.
use h4ckrth0n.Prelude.{
  ◌≡◌, refl, subst, inl, inr, String, Bool, ◌||◌, List, [], ◌∷◌, ◌==◌, Bool-cases, select,
}
use h4ckrth0n.Result.{Result, ok, err}
use h4ckrth0n.Migrations.{
  Url, UrlLibrary, sync_driver, sync_url, is_kept, rendered, normalize_db_url_for_sync,
}

sync_driver-sync_driver : (d : String) → sync_driver (sync_driver d) ≡ sync_driver d
unfolding sync_driver
sync_driver-sync_driver d = elim (Bool-cases (d == "sqlite+aiosqlite")) [
  | inl a ↦ rw a
  | inr a ↦ elim (Bool-cases (d == "postgresql+asyncpg")) [
    | inl b ↦ rw (a, b)
    | inr b ↦ elim (Bool-cases (d == "postgresql" || d == "postgres")) [
      | inl c ↦ rw (a, b, c)
      | inr c ↦ rw (a, b, c, a, b, c)
    ]
  ]
]

select-select {ℓ} : {A : Type ℓ} (p : A → Bool) (xs : List A) → select p (select p xs) ≡ select p xs
unfolding select
select-select p [] = refl
select-select p (x ∷ xs) = elim (Bool-cases (p x)) [
  | inl e ↦ rw (e, e, select-select p xs)
  | inr e ↦ rw (e, select-select p xs)
]

sync_url-sync_url : (u : Url) → sync_url (sync_url u) ≡ sync_url u
unfolding sync_url
sync_url-sync_url u = elim (Bool-cases (sync_driver u.drivername == "postgresql+psycopg")) [
  | inl e ↦ rw (sync_driver-sync_driver u.drivername, e, select-select is_kept u.query)
  | inr e ↦ rw (sync_driver-sync_driver u.drivername, e)
]

-- A URL that was normalised stays as it is, if the library reads back what it renders for it.
module _ (lib : UrlLibrary) where
  normalized_again :
      (r : Result Url) (n : String)
      → ((u : Url) → r ≡ ok u → lib.make_url (lib.render (sync_url u)) ≡ ok (sync_url u))
      → rendered lib r ≡ ok n
      → normalize_db_url_for_sync lib n ≡ ok n
  unfolding normalize_db_url_for_sync
  normalized_again (err e) n reads h = cc
  normalized_again (ok u) n reads h =
      let same : lib.render (sync_url u) ≡ n = cc in
      subst (λ x. rendered lib (lib.make_url x) ≡ ok x) same
        (rw (reads u refl, sync_url-sync_url u))

  pub normalize-normalize :
      (url n : String)
      → ((u : Url)
          → lib.make_url url ≡ ok u
          → lib.make_url (lib.render (sync_url u)) ≡ ok (sync_url u))
      → normalize_db_url_for_sync lib url ≡ ok n
      → normalize_db_url_for_sync lib n ≡ ok n
  unfolding normalize_db_url_for_sync
  normalize-normalize url n reads h = normalized_again (lib.make_url url) n reads h
