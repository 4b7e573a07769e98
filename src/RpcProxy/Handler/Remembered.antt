-- ===== src/RpcProxy/Handler/Remembered.antt =====
-- The second time that the handler of rpc-proxy/src/main.rs is asked.
use solenoid.Base.{ℕ, ◌≡◌, refl, ap, ◌∙◌, true, false, Option, none, some, List}
use mathlib.Core.Option
use solenoid.RpcProxy.Crates.{HexCrate, KvStore, FileSystem}
use solenoid.RpcProxy.Web.{Json, HttpCrate}
use solenoid.RpcProxy.Words
use solenoid.RpcProxy.Retry.{Answer}
use solenoid.RpcProxy.Cache.{Cache, Method, put_tx, get_tx}
use solenoid.RpcProxy.Cache.Files.{temporary, put_tx-get_tx}
use solenoid.RpcProxy.Paths.{tx_path}
use solenoid.RpcProxy.Handler.{
  AppState, transaction, Upstream, with_cache, jsonrpc_ok, forward, cache_miss_and_forward,
  note_result,
}
use solenoid.RpcProxy.Handler.Requests.{
  found, serve_by, read_query, show_query, keep_query, keep_json, serve, cacheable_query,
  handle_jsonrpc,
}
use solenoid.RpcProxy.Handler.Local.{handle_query}

module _ ⦃hex : HexCrate⦄ ⦃kv : KvStore⦄ ⦃fs : FileSystem⦄ ⦃json : Json⦄ ⦃http : HttpCrate⦄ where
  module _ (read : Method (Option (List ℕ))) (show : List ℕ → Option json.Value)
      (on_result : json.Value → Cache → Cache) (up : Upstream) (body id : json.Value)
      (st : AppState) where
    -- A miss keeps the result of the upstream.
    missed_keeps :
        (resp v : json.Value)
        → found (read st.cache).0 show ≡ none
        → st.offline ≡ false
        → forward up st body ≡ some (Answer.success resp)
        → json.field Words.error resp ≡ none
        → json.field Words.result resp ≡ some v
        → (serve_by read show on_result up body id st).1
          ≡ with_cache st (on_result v (read st.cache).1)
    unfolding serve_by cache_miss_and_forward note_result forward
    missed_keeps resp v missed online answered no_error result =
        rw
          (
            serve_by, missed, cache_miss_and_forward, online, answered, note_result, no_error,
            result,
          )
          (ap (λ b. record (with_cache st (on_result v (read st.cache).1)) { offline = b }) online)

    -- A hit is answered from the cache.
    hit_answers :
        (v : json.Value)
        → found (read st.cache).0 show ≡ some v
        → (serve_by read show on_result up body id st).0 ≡ some (jsonrpc_ok id v)
    unfolding serve_by
    hit_answers v hit = rw (serve_by, hit) refl

  abbrev entry_of : Option (Option (List ℕ)) → Option json.Value
  entry_of read = found read json.from_str

  -- The result of the upstream for a transaction that the cache did not have, when it is not null
  -- and is stored, answers the same request the next time, as its text is parsed, whatever the
  -- upstream would then answer. The server is not in offline mode, and the name of the temporary
  -- file is no link.
  pub handle_jsonrpc_remembers :
      (up up' : Upstream) (body resp v w : json.Value) (st : AppState) (hash : List ℕ)
      → json.as_array body ≡ none
      → json.is_object body ≡ true
      → cacheable_query st.empty body ≡ some (transaction hash)
      → (get_tx hash st.cache).0 ≡ some none
      → st.offline ≡ false
      → forward up st body ≡ some (Answer.success resp)
      → json.field Words.error resp ≡ none
      → json.field Words.result resp ≡ some v
      → json.is_null v ≡ false
      → json.from_str (json.to_string v) ≡ some w
      → fs.is_link st.cache.files (temporary (tx_path hash)) ≡ false
      → (put_tx hash (json.to_string v) st.cache).0 ≡ some tt
      → (handle_jsonrpc up' body (handle_jsonrpc up body st).1).0
        ≡ some (jsonrpc_ok (Option.get_or (json.field Words.id body) json.null) w)
  unfolding serve found read_query show_query keep_query get_tx Option.bind
  handle_jsonrpc_remembers up up' body resp v w st hash single object asked missed online answered
        no_error result present parsed free stored =
      let query = transaction hash in
      let id = Option.get_or (json.field Words.id body) json.null in
      let kept : keep_query query v st.cache ≡ (put_tx hash (json.to_string v) st.cache).1 =
        rw (keep_query, keep_json, present) refl in
      let st' = with_cache st (put_tx hash (json.to_string v) st.cache).1 in
      let first : (handle_jsonrpc up body st).1 ≡ st' =
        ap (λ r. r.1) (handle_query up body st query single object asked)
        ∙ missed_keeps (get_tx hash) json.from_str (keep_query query) up body id st resp v
            (ap entry_of missed) online answered no_error result
        ∙ ap (with_cache st) kept in
      ap (λ x. (handle_jsonrpc up' body x).0) first
      ∙ ap (λ r. r.0) (handle_query up' body st' query single object asked)
      ∙ hit_answers (get_tx hash) json.from_str (keep_query query) up' body id st' w
          (ap entry_of (put_tx-get_tx hash (json.to_string v) st.cache free stored) ∙ parsed)
