-- ===== src/RpcProxy/Handler/Requests.antt =====
-- The requests of rpc-proxy/src/main.rs: those that the cache serves, `handle_jsonrpc`,
-- `handle_ready` and `handle_update_url`.
use solenoid.Base.{ℕ, Bool, ◌||◌, Option, none, some, List, [], ◌∷◌, if◌then◌else◌}
use mathlib.Core.Option
use solenoid.Outcome.{Done}
use solenoid.Base.Int.{pos, negsuc}
use solenoid.RpcProxy.Crates.{HexCrate, KvStore, FileSystem}
use solenoid.RpcProxy.Web.{Json, HttpCrate}
use solenoid.RpcProxy.Words
use solenoid.RpcProxy.Retry.{Answer}
use solenoid.RpcProxy.Cache.{
  Cache, Method, get_storage_at, put_storage_at, get_balance, put_balance, get_tx_count,
  put_tx_count, get_code, put_code, get_block_by_hash, get_block_by_number, put_block, get_tx,
  put_tx, get_receipt, put_receipt,
}
use solenoid.RpcProxy.Handler.{
  Query, storage_at, balance, tx_count, code_of, block_by_hash, block_by_number, transaction,
  receipt, Upstream, Body, Response, respond, jsonrpc_ok, refused, Handler, with_cache, forward,
  fmt, forward_and_respond, cache_miss_and_forward, is_latest, route,
}

module _ ⦃hex : HexCrate⦄ ⦃kv : KvStore⦄ ⦃fs : FileSystem⦄ ⦃json : Json⦄ ⦃http : HttpCrate⦄ where
  -- What is read from the cache, shown as JSON, is the answer; an error counts as a miss.
  unfoldable pub found : Option (Option (List ℕ)) → (List ℕ → Option json.Value) → Option json.Value
  found read show = Option.bind read (λ entry. Option.bind entry show)

  unfoldable pub serve_by :
      Method (Option (List ℕ))
      → (List ℕ → Option json.Value)
      → (json.Value → Cache → Cache)
      → Upstream
      → json.Value
      → json.Value
      → Handler
  unfolding found cache_miss_and_forward
  serve_by read show on_result upstream body id st =
      let (entry, c) = read st.cache in
      elim (found entry show) [
        | some val ↦ (some (jsonrpc_ok id val), with_cache st c)
        | none ↦ cache_miss_and_forward upstream body id on_result (with_cache st c)
      ]

  -- Only a result that is a string is kept.
  unfoldable pub keep_str : (List ℕ → Method Done) → json.Value → Cache → Cache
  keep_str put result c = elim (json.as_str result) [ none ↦ c | some val ↦ (put val c).1 ]

  unfoldable pub keep_slot : List ℕ → List ℕ → List ℕ → json.Value → Cache → Cache
  keep_slot address slot block result c =
      (put_storage_at address slot block (Option.get_or (json.as_str result) Words.zero_word) c).1

  -- Only an object with a hash and a number is kept.
  unfoldable pub keep_block : json.Value → Cache → Cache
  keep_block result c =
      if json.is_object result
      then elim (Option.bind (json.field Words.hash result) json.as_str) [
        | none ↦ c
        | some h ↦ elim (Option.bind (json.field Words.number result) json.as_str) [
          | none ↦ c
          | some n ↦ (put_block h n (json.to_string result) c).1
        ]
      ]
      else c

  unfoldable pub keep_json : (List ℕ → Method Done) → json.Value → Cache → Cache
  keep_json put result c = if json.is_null result then c else (put (json.to_string result) c).1

  -- What a query reads, how it is shown, and what is kept of an answer to it.
  unfoldable pub read_query : Query → Method (Option (List ℕ))
  read_query (storage_at a s b) = get_storage_at a s b
  read_query (balance a b) = get_balance a b
  read_query (tx_count a b) = get_tx_count a b
  read_query (code_of a) = get_code a
  read_query (block_by_hash h) = get_block_by_hash h
  read_query (block_by_number n) = get_block_by_number n
  read_query (transaction h) = get_tx h
  read_query (receipt h) = get_receipt h

  unfoldable pub show_query : Query → List ℕ → Option json.Value
  show_query (block_by_hash h) s = json.from_str s
  show_query (block_by_number n) s = json.from_str s
  show_query (transaction h) s = json.from_str s
  show_query (receipt h) s = json.from_str s
  show_query _ s = some (json.text s)

  unfoldable pub keep_query : Query → json.Value → Cache → Cache
  unfolding keep_str keep_slot keep_block keep_json
  keep_query (storage_at a s b) = keep_slot a s b
  keep_query (balance a b) = keep_str (put_balance a b)
  keep_query (tx_count a b) = keep_str (put_tx_count a b)
  keep_query (code_of a) = keep_str (put_code a)
  keep_query (block_by_hash h) = keep_block
  keep_query (block_by_number n) = keep_block
  keep_query (transaction h) = keep_json (put_tx h)
  keep_query (receipt h) = keep_json (put_receipt h)

  unfoldable pub serve : Upstream → Query → json.Value → json.Value → Handler
  unfolding serve_by
  serve upstream query = serve_by (read_query query) (show_query query) (keep_query query) upstream

  -- The query that is answered from the cache, if the request is one.
  unfoldable pub cacheable_query : Bool → json.Value → Option Query
  unfolding is_latest route
  cacheable_query empty body =
      let method = Option.get_or (Option.bind (json.field Words.method body) json.as_str) [] in
      let params = Option.get_or (json.field Words.params body) (json.list []) in
      if empty || is_latest params then none else route method params

  unfoldable pub handle_jsonrpc : Upstream → json.Value → Handler
  unfolding forward_and_respond serve cacheable_query
  handle_jsonrpc upstream body st = elim (json.as_array body) [
    | some batch ↦ forward_and_respond upstream body st
    | none ↦
        if json.is_object body
        then elim (cacheable_query st.empty body) [
          | none ↦ forward_and_respond upstream body st
          | some query ↦
              serve upstream query body (Option.get_or (json.field Words.id body) json.null) st
        ]
        else (some (refused 400 (negsuc 32599) Words.invalid_request), st)
  ]

  abbrev single : List ℕ → List ℕ → json.Value
  single name value = json.object ((name, json.text value) ∷ [])

  abbrev probe : json.Value
  probe = json.object (
      (Words.jsonrpc, json.text Words.two_zero)
      ∷ (Words.id, json.number (pos 1))
      ∷ (Words.method, json.text Words.eth_block_number)
      ∷ (Words.params, json.list [])
      ∷ [])

  abbrev is_ready : json.Value → Response
  is_ready resp = elim (Option.bind (json.field Words.result resp) json.as_str) [
    | some result ↦ respond 200 (single Words.block result)
    | none ↦ elim (json.field Words.error resp) [
      | some error ↦ respond 503 (single Words.error Words.upstream_error)
      | none ↦ respond 503 (single Words.error Words.invalid_response)
    ]
  ]

  unfoldable pub handle_ready : Upstream → Handler
  unfolding forward fmt
  handle_ready upstream st = elim (forward upstream st probe) [
    | none ↦ (none, st)
    | some answer ↦ elim answer [
      | Answer.success resp ↦ (some (is_ready resp), st)
      | Answer.failure err ↦ (some (respond 503 (single Words.error (fmt err))), st)
    ]
  ]

  unfoldable pub handle_update_url : json.Value → Handler
  handle_update_url body st = elim (Option.bind (json.field Words.url body) json.as_str) [
    | none ↦ (some (record { status = 400; body = Body.plain Words.ignored }), st)
    | some url ↦ (
      some (record { status = 200; body = Body.plain Words.url_updated }),
      record st { upstream_url = url },
    )
  ]
