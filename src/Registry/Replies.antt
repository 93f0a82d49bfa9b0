-- ===== src/Registry/Replies.antt =====
-- workers.py, `_normalize_response`: the content of a worker's reply.
use ai_worker_bridge_mcp.Base.{Option, none, some, [], ◌∷◌, ◌++◌}
use ai_worker_bridge_mcp.Base.Text.{Text, codes}
use ai_worker_bridge_mcp.Base.Exec.{Result, ok, err}
use ai_worker_bridge_mcp.Json.{
  Json, null, bool, int, neg, str, arr, obj, end, field, get, first, or_json,
}
use ai_worker_bridge_mcp.Exceptions.{Exception, other_error}

-- `v[key]`, `none` for a KeyError or a TypeError.
at_key : Text → Option Json → Option Json
unfolding get
at_key key (some (obj fs)) = get key fs
at_key key _ = none

-- `v[0]`, `none` for a KeyError, an IndexError or a TypeError.
at_zero : Option Json → Option Json
unfolding first
at_zero (some (arr vs)) = first vs
at_zero (some (str (c ∷ s))) = some (str (c ∷ []))
at_zero _ = none

-- `data["choices"][0]["message"]["content"]`
unfoldable pub choice : Json → Option Json
unfolding at_key at_zero
choice body =
    at_key (codes "content")
      (at_key (codes "message") (at_zero (at_key (codes "choices") (some body))))

or_null : Option Json → Json
or_null none = null
or_null (some v) = v

response : Json → Json → Json
response content body = obj (field (codes "content") content (field (codes "raw") body end))

-- `type(v).__name__`
type_name : Json → Text
type_name null = codes "NoneType"
type_name (bool b) = codes "bool"
type_name (int n) = codes "int"
type_name (neg n) = codes "int"
type_name (str s) = codes "str"
type_name (arr vs) = codes "list"
type_name (obj fs) = codes "dict"

-- With the content of the first choice, if there is one; `data.get` raises where `data` is no dict.
unfoldable pub with_content : Json → Option Json → Result Exception Json
unfolding response or_null or_json get type_name
with_content body (some content) = ok (response content body)
with_content (obj fs) none =
    ok (response (or_null (or_json (get (codes "content") fs) (get (codes "text") fs))) (obj fs))
with_content body none = err (
    other_error (codes "'" ++ (type_name body ++ codes "' object has no attribute 'get'"))
      (codes "AttributeError"))

unfoldable pub normalize_response : Json → Result Exception Json
unfolding choice with_content
normalize_response body = with_content body (choice body)
