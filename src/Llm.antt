-- ===== src/Llm.antt =====
-- src/h4ckath0n/llm/client.py: the clients around the OpenAI SDK. A request to the provider is an
-- argument; the asynchronous client's calls, one event after the other, share its semaphore.
pub mod Limit
use h4ckrth0n.Prelude.{
  ℕ, zero, suc, ◌+◌, ◌-◌, String, Bool, true, false, not, ◌&&◌, ◌||◌, Option, none, some, List, [],
  ◌∷◌, ◌++◌, ◌==◌, eqb, ltb, if◌then◌else◌,
}
use h4ckrth0n.Result.{Result, ok, err, runtime_error, library_error}

abbrev pub truthy : Option String → Bool
truthy none = false
truthy (some s) = not (s == "")

abbrev pub text_or : String → Option String → String
text_or default none = default
text_or default (some s) = s

-- `api_key or env OPENAI_API_KEY or env H4CKATH0N_OPENAI_API_KEY, default ""`
unfoldable pub resolved_key : Option String → (String → Option String) → String
resolved_key api_key env =
    if truthy api_key
    then text_or "" api_key
    else if truthy (env "OPENAI_API_KEY")
    then text_or "" (env "OPENAI_API_KEY")
    else text_or "" (env "H4CKATH0N_OPENAI_API_KEY")

pub record Client : Type 0 where
  pub api_key : String
  pub model : String
  pub timeout : ℕ
  pub max_retries : ℕ

-- `LLMClient(...)`, which `llm(...)` passes its arguments to.
unfoldable pub new_client :
    Option String → (String → Option String) → String → ℕ → ℕ → Result Client
unfolding resolved_key
new_client api_key env model timeout max_retries =
    let key = resolved_key api_key env in
    if key == ""
    then err (
        runtime_error
          "No OpenAI API key configured. Set OPENAI_API_KEY or H4CKATH0N_OPENAI_API_KEY.")
    else ok (record { api_key = key; model = model; timeout = timeout; max_retries = max_retries })

pub record Request : Type 0 where
  pub model : String
  pub system : String
  pub user : String

pub record Usage : Type 0 where
  pub prompt_tokens : ℕ
  pub completion_tokens : ℕ

-- What the SDK returns: the contents of the choices, the model and the usage.
pub record Completion : Type 0 where
  pub choices : List (Option String)
  pub model : String
  pub usage : Option Usage

pub record ChatResponse : Type 0 where
  pub text : String
  pub model : String
  pub usage_prompt_tokens : ℕ
  pub usage_completion_tokens : ℕ

abbrev prompt_of : Option Usage → ℕ
prompt_of none = 0
prompt_of (some u) = u.prompt_tokens

abbrev completion_of : Option Usage → ℕ
completion_of none = 0
completion_of (some u) = u.completion_tokens

unfoldable pub normalised : Completion → List (Option String) → Result ChatResponse
normalised response [] = err (library_error "IndexError")
normalised response (content ∷ _) = ok (record {
  text = text_or "" content;
  model = response.model;
  usage_prompt_tokens = prompt_of response.usage;
  usage_completion_tokens = completion_of response.usage;
})

abbrev and_normalise : Result Completion → Result ChatResponse
and_normalise (ok response) = normalised response response.choices
and_normalise (err e) = err e

unfoldable pub chat_request : Client → String → String → Option String → Request
chat_request client user system model = record {
  model = if truthy model then text_or "" model else client.model;
  system = system;
  user = user;
}

-- `chat`, on the provider that answers a request.
unfoldable pub chat :
    (Request → Result Completion) → Client → String → String → Option String → Result ChatResponse
unfolding normalised chat_request
chat create client user system model =
    and_normalise (create (chat_request client user system model))

-- The semaphore of the asynchronous client: free places, the calls that wait, first come first
-- served, and the calls whose request is with the provider.
pub record Slots : Type 0 where
  pub free : ℕ
  pub waiting : List ℕ
  pub running : List ℕ

unfoldable pub new_slots : ℕ → Slots
new_slots max_concurrency = record { free = max_concurrency; waiting = []; running = [] }

abbrev pub none_wait : List ℕ → Bool
none_wait [] = true
none_wait (i ∷ l) = false

-- `async with self._semaphore`, on the way in.
unfoldable pub enter : ℕ → Slots → Slots
enter call s =
    if ltb 0 s.free && none_wait s.waiting
    then record s { free = s.free - 1; running = call ∷ s.running }
    else record s { waiting = s.waiting ++ call ∷ [] }

unfoldable pub is_in : ℕ → List ℕ → Bool
is_in call [] = false
is_in call (i ∷ l) = eqb i call || is_in call l

unfoldable pub remove : ℕ → List ℕ → List ℕ
remove call [] = []
remove call (i ∷ l) = let rest = remove call l in if eqb i call then l else i ∷ rest

-- `release`: the place goes to the call that has waited longest, or is free again.
unfoldable pub release : List ℕ → Slots → Slots
release [] s = record s { free = s.free + 1; waiting = [] }
release (i ∷ l) s = record s { waiting = l; running = i ∷ s.running }

-- The answer for a call arrives, or its request raises: on the way out.
unfoldable pub leave : ℕ → Slots → Slots
unfolding remove release is_in
leave call s =
    if is_in call s.running
    then release s.waiting (record s { running = remove call s.running })
    else s

pub data CallEvent : Type 0 where
  calls : ℕ → CallEvent
  answered : ℕ → CallEvent

unfoldable pub serve : CallEvent → Slots → Slots
unfolding enter leave
serve (calls call) s = enter call s
serve (answered call) s = leave call s

unfoldable pub serve_all : List CallEvent → Slots → Slots
serve_all [] s = s
serve_all (event ∷ events) s = serve_all events (serve event s)
