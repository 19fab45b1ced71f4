-- ===== src/Db/Engine.antt =====
-- src/h4ckath0n/db/engine.py: the URL and the arguments with which SQLAlchemy makes an engine.
use h4ckrth0n.Prelude.{
  ℕ, ◌≡◌, refl, sym, ap, ◌∙◌, inl, inr, String, Bool, true, false, ◌||◌, Option, none, some,
  Option-cases, if◌then◌else◌,
}
use h4ckrth0n.Config.{Settings}
use h4ckrth0n.Text.{append}
use h4ckrth0n.Text.Pattern.{strip_prefix}

-- A URL whose prefix is replaced, and what becomes of another URL.
abbrev pub replaced : String → String → Option String → String
replaced prefix other none = other
replaced prefix other (some rest) = append prefix rest

unfoldable pub sync_to_async_url : String → String
sync_to_async_url url =
    replaced "sqlite+aiosqlite:"
      (replaced "postgresql+asyncpg://"
        (replaced "postgresql+asyncpg://" url (strip_prefix "postgres://" url))
        (strip_prefix "postgresql://" url))
      (strip_prefix "sqlite:" url)

abbrev pub starts : Option String → Bool
starts none = false
starts (some rest) = true

-- `word in s`
unfoldable pub contains_text : String → String → Bool
contains_text word String.[] = starts (strip_prefix word String.[])
contains_text word (String.◌∷◌ c s) =
    starts (strip_prefix word (String.◌∷◌ c s)) || contains_text word s

-- The arguments that are passed; a field is none when the argument is left out.
pub record EngineArgs : Type 0 where
  pub url : String
  pub check_same_thread : Option Bool
  pub pool_size : Option ℕ
  pub max_overflow : Option ℕ
  pub pool_pre_ping : Option Bool

unfoldable pub sync_engine_args : String → EngineArgs
sync_engine_args url = record {
  url = url;
  check_same_thread = if starts (strip_prefix "sqlite" url) then some false else none;
  pool_size = none;
  max_overflow = none;
  pool_pre_ping = some true;
}

unfoldable pub create_engine_from_settings : Settings → EngineArgs
create_engine_from_settings settings = sync_engine_args settings.database_url

unfoldable pub async_engine_args : String → EngineArgs
unfolding contains_text
async_engine_args url =
    let pooled = contains_text "postgresql" url || contains_text "asyncpg" url in
    record {
      url = url;
      check_same_thread = if contains_text "sqlite" url then some false else none;
      pool_size = if pooled then some 10 else none;
      max_overflow = if pooled then some 20 else none;
      pool_pre_ping = if pooled then some true else none;
    }

unfoldable pub create_async_engine_from_settings : Settings → EngineArgs
unfolding async_engine_args sync_to_async_url
create_async_engine_from_settings settings =
    async_engine_args (sync_to_async_url settings.database_url)

-- An asynchronous URL has none of the prefixes that are replaced.
kept :
    (rest : String)
    → (sync_to_async_url (append "sqlite+aiosqlite:" rest) ≡ append "sqlite+aiosqlite:" rest)
      × (sync_to_async_url (append "postgresql+asyncpg://" rest)
          ≡ append "postgresql+asyncpg://" rest)
unfolding sync_to_async_url append strip_prefix
kept rest = (refl, refl)

-- Converting a URL that was converted changes nothing.
pub sync_to_async_url-sync_to_async_url :
    (url : String) → sync_to_async_url (sync_to_async_url url) ≡ sync_to_async_url url
unfolding sync_to_async_url
sync_to_async_url-sync_to_async_url url = elim (Option-cases (strip_prefix "sqlite:" url)) [
  | inr (rest, a) ↦ settled (case_of a refl refl) ((kept rest).0)
  | inl a ↦ elim (Option-cases (strip_prefix "postgresql://" url)) [
    | inr (rest, b) ↦ settled (case_of a b refl) ((kept rest).1)
    | inl b ↦ elim (Option-cases (strip_prefix "postgres://" url)) [
      | inr (rest, c) ↦ settled (case_of a b c) ((kept rest).1)
      | inl c ↦ let same : sync_to_async_url url ≡ url = case_of a b c in ap sync_to_async_url same
    ]
  ]
]
  where
    case_of :
        {o p q : Option String}
        → strip_prefix "sqlite:" url ≡ o
        → strip_prefix "postgresql://" url ≡ p
        → strip_prefix "postgres://" url ≡ q
        → sync_to_async_url url
          ≡ replaced "sqlite+aiosqlite:"
              (replaced "postgresql+asyncpg://" (replaced "postgresql+asyncpg://" url q) p)
              o
    case_of a b c = rw (a, b, c)

    settled :
        {v : String}
        → sync_to_async_url url ≡ v
        → sync_to_async_url v ≡ v
        → sync_to_async_url (sync_to_async_url url) ≡ sync_to_async_url url
    settled same fixed = ap sync_to_async_url same ∙ fixed ∙ sym same
