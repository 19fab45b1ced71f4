-- ===== src/Auth/Passwords/Resets.antt =====
-- What a password reset does, and how often a token serves.
pub mod Once
pub mod Login
use h4ckrth0n.Prelude.{
  ℕ, ◌≤◌, ◌≡◌, ◌≢◌, refl, sym, ap, ◌∙◌, subst, inl, inr, Bool-cases, ◌&&◌, ◌||◌, not, String, Bool,
  true, false, Option, none, some, List, [], ◌∷◌, ◌++◌, map, ◌==◌, eq_iff, arith, ltb, first, count,
  update, contains, distinct, if◌then◌else◌,
}
use h4ckrth0n.Prelude.Rows.{
  first-true, count-update_one, count-update-le, count-concat, count-le-one, contains-concat,
  contains_of_distinct, contains_of_first, map-update, first-none_of_count,
}
use h4ckrth0n.Json.{Fields}
use h4ckrth0n.Models.{Time, User, PasswordResetToken, Device}
use h4ckrth0n.Config.{Settings}
use h4ckrth0n.Result.{Error, Result, ok, err}
use h4ckrth0n.Db.{Database, consistent, tokens_consistent}
use h4ckrth0n.Db.Session.{Session, Tx, ◌>>=◌, opened, run, modify, lift, query, found}
use h4ckrth0n.Db.Session.Laws.{
  Returns, of_lift, of_query, of_found, of_guard, of_modify, of_commit, pure-ok, run-Returns,
}
use h4ckrth0n.Db.Session.Keeps.{
  Both, Keeps, Keeps-bind, Keeps-pure, Keeps-lift, Keeps-modify, Keeps-run, KeepsAt, at_change_then,
  at_query, keeps_rules,
}
use h4ckrth0n.Auth.Passwords.{
  Argon, Crypto, Draws, require_password_extra, is_usable, mark_used, set_password, add_user,
  add_device, add_token, register_user, add_new_device, register_device, store_token,
  create_password_reset_token, confirm_password_reset, user_by_email,
}

-- What a confirmation that returns has checked, and the rows that it leaves.
pub record Reset (crypto : Crypto) (d : Draws) (raw_token new_password : String) (s u : Session)
    (user : User) : Type 0 where
  pub argon : Argon
  pub token : PasswordResetToken
  pub owner : User
  pub extra : require_password_extra crypto ≡ ok argon
  pub stored : first (is_usable (crypto.sha256 raw_token)) s.working.reset_tokens ≡ some token
  pub unexpired : not (ltb token.expires_at d.now) ≡ true
  pub owned : first (λ u. u.id == token.user_id) s.working.users ≡ some owner
  pub checked :
      consistent (set_password (argon.hash new_password) owner (mark_used token s.working)) ≡ true
  pub left : u ≡ opened (set_password (argon.hash new_password) owner (mark_used token s.working))
  pub returned : user ≡ record owner { password_hash = some (argon.hash new_password) }

pub confirm_password_reset-ok :
    (crypto : Crypto) (d : Draws) (raw_token new_password : String) (s : Session) {user : User}
    {u : Session}
    → Returns (confirm_password_reset crypto d raw_token new_password s) user u
    → Reset crypto d raw_token new_password s u user
unfolding confirm_password_reset mark_used
confirm_password_reset-ok crypto d raw_token new_password s h = of_lift _ _ s h λ argon extra h₁.
    of_query _ _ s h₁ λ h₂. of_found _ _ _ s h₂ λ token stored h₃.
      of_guard _ _ _ s h₃ λ unexpired h₄. of_modify _ _ s h₄ λ h₅. of_query _ _ _ h₅ λ h₆.
        of_found _ _ _ _ h₆ λ owner owned h₇. of_modify _ _ _ h₇ λ h₈.
          of_commit _ _ h₈ λ checked h₉.
            let (returned, left) = pure-ok _ _ h₉ in
            record {
              argon = argon;
              token = token;
              owner = owner;
              extra = extra;
              stored = stored;
              unexpired = unexpired;
              owned = owned;
              checked = checked;
              left = left;
              returned = returned;
            }

-- A token of this hash is stored, and none of this hash can be used.
pub record IsUsed (hashed : String) (db : Database) : Type 0 where
  pub unusable : count (is_usable hashed) db.reset_tokens ≡ 0
  pub there : contains hashed (map (λ t. t.token_hash) db.reset_tokens) ≡ true

-- Marking the token that was found leaves none of its hash that can be used.
pub mark_used-IsUsed :
    (hashed : String) (prt : PasswordResetToken) (db : Database)
    → tokens_consistent (mark_used prt db).reset_tokens ≡ true
    → first (is_usable hashed) db.reset_tokens ≡ some prt
    → IsUsed hashed (mark_used prt db)
unfolding mark_used tokens_consistent
mark_used-IsUsed hashed prt db checked stored =
    let rows = db.reset_tokens in
    let spend = λ (t : PasswordResetToken). record t { used = true } in
    let ids =
      map-update (λ (t : PasswordResetToken). t.id) (λ t. t.id == prt.id) spend rows (λ t. refl) in
    let hashes =
      map-update (λ (t : PasswordResetToken). t.token_hash) (λ t. t.id == prt.id) spend rows
        (λ t. refl) in
    let by_id : distinct (map (λ t. t.id) rows) ≡ true =
      let g = rw (ids, hashes) at checked in ground (arith, g) in
    let by_hash : distinct (map (λ t. t.token_hash) rows) ≡ true =
      let g = rw (ids, hashes) at checked in ground (arith, g) in
    let fits : is_usable hashed prt ≡ true = first-true (is_usable hashed) rows prt stored in
    let named : prt.token_hash ≡ hashed = ground (arith, fits, eq_iff prt.token_hash hashed) in
    record {
      unusable = ground (
        arith,
        fits,
        count-update_one (λ t. t.id) (is_usable hashed) (is_usable hashed) spend rows prt by_id
            stored,
        count-le-one (λ t. t.token_hash) hashed (λ t. not t.used) rows by_hash,
      );
      there = rw hashes (
          subst (λ k. contains k (map (λ t. t.token_hash) rows) ≡ true) named
            (contains_of_first (λ t. t.token_hash) (is_usable hashed) rows prt stored));
    }
