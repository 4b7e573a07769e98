-- ===== src/RpcProxy/Handler/Local.antt =====
-- What the handler of rpc-proxy/src/main.rs answers without the upstream.
use solenoid.Base.{ℕ, ◌≡◌, refl, sym, ◌∙◌, true, Option, Option-cases, inl, inr, none, some, List}
use mathlib.Core.Option
use solenoid.RpcProxy.Crates.{HexCrate, KvStore, FileSystem}
use solenoid.RpcProxy.Web.{Json, HttpCrate}
use solenoid.RpcProxy.Words
use solenoid.RpcProxy.Cache.{Cache, Method}
use solenoid.RpcProxy.Handler.{AppState, Query, Upstream, with_cache, cache_miss_and_forward}
use solenoid.RpcProxy.Handler.Requests.{
  found, serve_by, read_query, show_query, keep_query, serve, cacheable_query, handle_jsonrpc,
}

module _ ⦃hex : HexCrate⦄ ⦃kv : KvStore⦄ ⦃fs : FileSystem⦄ ⦃json : Json⦄ ⦃http : HttpCrate⦄ where
  module _ (up up' : Upstream) (body id : json.Value) (st : AppState)
      (offline : st.offline ≡ true) where
    missed_alike :
        (on_result : json.Value → Cache → Cache) (c : Cache)
        → cache_miss_and_forward up body id on_result (with_cache st c)
          ≡ cache_miss_and_forward up' body id on_result (with_cache st c)
    unfolding cache_miss_and_forward
    missed_alike on_result c = rw (cache_miss_and_forward, offline) refl

    served_alike :
        (read : Method (Option (List ℕ))) (show : List ℕ → Option json.Value)
        (on_result : json.Value → Cache → Cache)
        → serve_by read show on_result up body id st ≡ serve_by read show on_result up' body id st
    unfolding serve_by
    served_alike read show on_result = elim (Option-cases (found (read st.cache).0 show)) [
      | inl e ↦ rw (serve_by, e) (missed_alike on_result (read st.cache).1)
      | inr (val, e) ↦ rw (serve_by, e) refl
    ]

    serve_alike : (query : Query) → serve up query body id st ≡ serve up' query body id st
    unfolding serve
    serve_alike query = served_alike (read_query query) (show_query query) (keep_query query)

  -- A single request that the cache serves is handled as the query that it stands for.
  pub handle_query :
      (up : Upstream) (body : json.Value) (st : AppState) (query : Query)
      → json.as_array body ≡ none
      → json.is_object body ≡ true
      → cacheable_query st.empty body ≡ some query
      → handle_jsonrpc up body st
        ≡ serve up query body (Option.get_or (json.field Words.id body) json.null) st
  unfolding handle_jsonrpc serve
  handle_query up body st query single object asked =
      rw (handle_jsonrpc, single, object, asked) refl

  -- A server in offline mode answers a single request that the cache serves in the same way
  -- whatever the upstream would answer.
  pub handle_jsonrpc_offline :
      (up up' : Upstream) (body : json.Value) (st : AppState) (query : Query)
      → st.offline ≡ true
      → json.as_array body ≡ none
      → json.is_object body ≡ true
      → cacheable_query st.empty body ≡ some query
      → handle_jsonrpc up body st ≡ handle_jsonrpc up' body st
  handle_jsonrpc_offline up up' body st query offline single object asked =
      handle_query up body st query single object asked
      ∙ serve_alike up up' body (Option.get_or (json.field Words.id body) json.null) st offline
          query
      ∙ sym (handle_query up' body st query single object asked)
