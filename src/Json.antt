-- ===== src/Json.antt =====
-- The values of Python's `json` module, as request bodies and stored documents carry them.
-- A number keeps its literal text.
pub mod Dumps
use h4ckrth0n.Prelude.{String, Bool, true, false, Option, none, some, ◌==◌, if◌then◌else◌}

mutual
  pub data Json : Type 0 where
    null : Json
    bool : Bool → Json
    num : String → Json
    str : String → Json
    arr : Items → Json
    obj : Fields → Json

  pub data Items : Type 0 where
    nil : Items
    cons : Json → Items → Items

  pub data Fields : Type 0 where
    end : Fields
    field : String → Json → Fields → Fields

-- `d[k]` of a dict whose keys are distinct, as `json.loads` builds it
unfoldable pub lookup : String → Fields → Option Json
lookup k end = none
lookup k (field j v fs) = if j == k then some v else lookup k fs

-- Whether Python takes the value for true. A number is false when it is zero, which the
-- program does not meet where it asks.
unfoldable pub truthy : Json → Bool
truthy null = false
truthy (bool b) = b
truthy (num n) = if n == "0" then false else true
truthy (str s) = if s == "" then false else true
truthy (arr nil) = false
truthy (arr (cons x xs)) = true
truthy (obj end) = false
truthy (obj (field k v fs)) = true

-- A text column compared with a value: only a text can equal it.
unfoldable pub equals_text : String → Json → Bool
equals_text t (str s) = t == s
equals_text t v = false
