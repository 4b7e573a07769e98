-- ===== src/RpcProxy/Handler.antt =====
-- The handlers of rpc-proxy/src/main.rs. A request runs alone; the upstream is what each attempt of
-- a request to a URL gives, and `none` as a response is a panic.
pub mod Requests
pub mod Local
pub mod Remembered
use solenoid.Base.{
  ℕ, Bool, true, false, not, ◌||◌, ◌&&◌, Option, none, some, List, [], ◌∷◌, ◌++◌, get_elem?, leb,
  ltb, ◌==◌, if◌then◌else◌,
}
use mathlib.Core.Option
use solenoid.Base.Int.{ℤ, pos, negsuc}
use solenoid.RpcProxy.Crates.{HexCrate, KvStore, FileSystem}
use solenoid.RpcProxy.Web.{Json, HttpCrate}
use solenoid.RpcProxy.Words
use solenoid.RpcProxy.Paths.{same_string}
use solenoid.RpcProxy.Retry.{RetryConfig, Answer, retry}
use solenoid.RpcProxy.Cache.{
  Cache, get_storage_at, put_storage_at, get_balance, put_balance, get_tx_count, put_tx_count,
  get_code, put_code, get_block_by_hash, get_block_by_number, put_block, get_tx, put_tx,
  get_receipt, put_receipt,
}

-- A request that the cache serves: its method with its parameters.
pub data Query : Type 0 where
  storage_at : List ℕ → List ℕ → List ℕ → Query
  balance tx_count : List ℕ → List ℕ → Query
  code_of block_by_hash block_by_number transaction receipt : List ℕ → Query

module _ ⦃hex : HexCrate⦄ ⦃kv : KvStore⦄ ⦃fs : FileSystem⦄ ⦃json : Json⦄ ⦃http : HttpCrate⦄ where
  pub record AppState : Type 0 where
    pub upstream_url : List ℕ
    pub cache : Cache
    pub offline : Bool
    pub empty : Bool

  pub data ForwardError : Type 0 where
    reqwest : http.Failure → ForwardError
    http_status : ℕ → List ℕ → ForwardError

  unfoldable pub is_retryable : ForwardError → Bool
  is_retryable (ForwardError.reqwest e) =
      http.is_connect e || http.is_timeout e || http.is_request e
  is_retryable (ForwardError.http_status status body) =
      leb 500 status && ltb status 600 || status == 429

  -- `Request failed: ` and `upstream error: `
  unfoldable pub fmt : ForwardError → List ℕ
  fmt (ForwardError.reqwest e) = Words.request_failed ++ http.failure_text e
  fmt (ForwardError.http_status status body) =
      Words.upstream_error ++ 58 ∷ 32 ∷ http.status_text status ++ 32 ∷ 45 ∷ 32 ∷ body

  -- What the attempts of a request give.
  abbrev pub Upstream : Type 0
  Upstream = List ℕ → json.Value → ℕ → Answer json.Value ForwardError

  pub data Body : Type 0 where
    value : json.Value → Body
    plain : List ℕ → Body

  pub record Response : Type 0 where
    pub status : ℕ
    pub body : Body

  abbrev pub respond : ℕ → json.Value → Response
  respond status v = record { status = status; body = Body.value v }

  unfoldable pub jsonrpc_ok : json.Value → json.Value → Response
  jsonrpc_ok id result = respond 200 (
      json.object
        ((Words.jsonrpc, json.text Words.two_zero) ∷ (Words.id, id) ∷ (Words.result, result) ∷ []))

  abbrev pub failed : ℤ → List ℕ → json.Value
  failed code message =
      json.object ((Words.code, json.number code) ∷ (Words.message, json.text message) ∷ [])

  unfoldable pub jsonrpc_err : json.Value → ℤ → List ℕ → Response
  jsonrpc_err id code message = respond 200 (
      json.object (
        (Words.jsonrpc, json.text Words.two_zero)
        ∷ (Words.id, id)
        ∷ (Words.error, failed code message)
        ∷ []))

  -- A failure without the id of the request.
  abbrev pub refused : ℕ → ℤ → List ℕ → Response
  refused status code message = respond status (
      json.object (
        (Words.jsonrpc, json.text Words.two_zero)
        ∷ (Words.error, failed code message)
        ∷ (Words.id, json.null)
        ∷ []))

  unfoldable pub error_response : ForwardError → Response
  unfolding fmt
  error_response err = refused 502 (negsuc 31999) (fmt err)

  abbrev pub forwarding : RetryConfig
  forwarding = record { max_attempts = 30; initial_delay_ms = 1000; max_delay_ms = 20000 }

  unfoldable pub forward :
      Upstream → AppState → json.Value → Option (Answer json.Value ForwardError)
  unfolding is_retryable
  forward upstream st body = (retry (upstream st.upstream_url body) is_retryable forwarding).0

  abbrev pub Handler : Type 0
  Handler = AppState → Option Response × AppState

  abbrev pub with_cache : AppState → Cache → AppState
  with_cache st c = record st { cache = c }

  unfoldable pub forward_and_respond : Upstream → json.Value → Handler
  unfolding forward
  forward_and_respond upstream body st = elim (forward upstream st body) [
    | none ↦ (none, st)
    | some answer ↦ elim answer [
      | Answer.success resp ↦ (some (respond 200 resp), st)
      | Answer.failure err ↦ (some (error_response err), st)
    ]
  ]

  -- What an answer of the upstream leaves in the cache.
  unfoldable pub note_result : json.Value → (json.Value → Cache → Cache) → Cache → Cache
  note_result resp on_result c = elim (json.field Words.error resp) [
    | some error ↦ c
    | none ↦ elim (json.field Words.result resp) [ none ↦ c | some result ↦ on_result result c ]
  ]

  unfoldable pub cache_miss_and_forward :
      Upstream → json.Value → json.Value → (json.Value → Cache → Cache) → Handler
  unfolding forward note_result
  cache_miss_and_forward upstream body id on_result st =
      if st.offline
      then (some (jsonrpc_err id (negsuc 32000) Words.server_running_in_offline_mode), st)
      else elim (forward upstream st body) [
        | none ↦ (none, st)
        | some answer ↦ elim answer [
          | Answer.success resp ↦
              (some (respond 200 resp), with_cache st (note_result resp on_result st.cache))
          | Answer.failure err ↦ (some (error_response err), st)
        ]
      ]

  unfoldable pub param : json.Value → ℕ → Option (List ℕ)
  param params i = Option.bind (json.as_array params) (λ a. Option.bind (get_elem? a i) json.as_str)

  unfoldable pub is_latest : json.Value → Bool
  unfolding param
  is_latest params = elim (param params 0) [
    | none ↦ false
    | some s ↦
        same_string s Words.latest || same_string s Words.pending || same_string s Words.earliest
  ]

  -- The method with the parameters that it needs; there is none for a method that is not cached.
  abbrev one : (List ℕ → Query) → json.Value → Option Query
  one query params = Option.map query (param params 0)

  abbrev two : (List ℕ → List ℕ → Query) → json.Value → Option Query
  two query params = Option.bind (param params 0) (λ a. Option.map (query a) (param params 1))

  unfoldable pub route : List ℕ → json.Value → Option Query
  unfolding param
  route method params =
      if same_string method Words.eth_get_storage_at
      then Option.bind (param params 0)
          (λ a. Option.bind (param params 1) (λ s. Option.map (storage_at a s) (param params 2)))
      else if same_string method Words.eth_get_balance
      then two balance params
      else if same_string method Words.eth_get_transaction_count
      then two tx_count params
      else if same_string method Words.eth_get_code
      then two (λ a block. code_of a) params
      else if same_string method Words.eth_get_block_by_hash
      then one block_by_hash params
      else if same_string method Words.eth_get_block_by_number
      then one block_by_number params
      else if same_string method Words.eth_get_transaction_by_hash
      then one transaction params
      else if same_string method Words.eth_get_transaction_receipt
      then one receipt params
      else none
