-- ===== src/Migrations/Upgrade.antt =====
-- What an upgrade does: its two entries agree.
use h4ckrth0n.Prelude.{◌≡◌, inl, inr, String, true, false, List, ◌==◌, is_none, Bool-cases}
use h4ckrth0n.Result.{ok, Result-cases}
use h4ckrth0n.Migrations.{
  Url, sync_url, Alembic, SchemaStatus, normalize_db_url_for_sync, packaged_migrations_dir,
  run_upgrade_to_head, run_upgrade_to_head_sync, run_upgrade_to_head_async, is_empty,
}
use h4ckrth0n.Migrations.Urls.{normalize-normalize}
use h4ckrth0n.Migrations.Status.{SameRevisions, schema_status_decides}

-- The entry for async code, which normalises the URL before it hands it to a thread, has the result
-- and the effects of the synchronous entry, if the library reads the normalised URL back.
pub async_upgrade_is_sync :
    {W : Type 0} (lib : Alembic W)
    → (db_url : String) (w : W)
    → ((u : Url)
        → lib.urls.make_url db_url ≡ ok u
        → lib.urls.make_url (lib.urls.render (sync_url u)) ≡ ok (sync_url u))
    → run_upgrade_to_head_async lib db_url w ≡ run_upgrade_to_head lib db_url w
unfolding run_upgrade_to_head_async run_upgrade_to_head run_upgrade_to_head_sync
async_upgrade_is_sync lib db_url w reads =
    elim (Result-cases (normalize_db_url_for_sync lib.urls db_url)) [
      | inl (n, e) ↦ let again = normalize-normalize lib.urls db_url n reads e in rw (e, again)
      | inr (x, e) ↦ rw e
    ]

-- Where Alembic's upgrade to head returns and leaves the database at the heads of the scripts, of
-- which there is one at least, the upgrade returns a status at head without a warning, and leaves
-- the database as Alembic's upgrade did.
pub upgrade_ends_at_head :
    {W : Type 0} (lib : Alembic W) (db_url n : String) (heads current : List String) (w w' : W)
    → ((u : Url)
        → lib.urls.make_url db_url ≡ ok u
        → lib.urls.make_url (lib.urls.render (sync_url u)) ≡ ok (sync_url u))
    → normalize_db_url_for_sync lib.urls db_url ≡ ok n
    → packaged_migrations_dir lib ≡ ok tt
    → lib.get_heads ≡ ok heads
    → is_empty current ≡ false
    → lib.upgrade n "head" w ≡ (ok tt, w')
    → lib.get_current_heads n w' ≡ (ok current, w')
    → SameRevisions current heads
    → (s : SchemaStatus) × (run_upgrade_to_head lib db_url w ≡ (ok s, w'))
      × (s.state == "at_head" ≡ true)
      × (is_none s.warning ≡ true)
unfolding run_upgrade_to_head run_upgrade_to_head_sync
upgrade_ends_at_head lib db_url n heads current w w' reads normal packaged scripts some_head
      upgraded answered same =
    let again = normalize-normalize lib.urls db_url n reads normal in
    let (s, returned, (head, _, warns), _, _, _, _) =
      schema_status_decides lib n n heads current w' w' again packaged scripts answered in
    (
      s,
      rw (normal, packaged, upgraded) returned,
      head.1 (some_head, same),
      elim (Bool-cases (is_none s.warning)) [ inl e ↦ e | inr e ↦ absurd ((warns.0 e).1 same) ],
    )
