-- ===== src/Json.antt =====
-- JSON values, as `json.loads` returns them: the results that workers give, and the bodies that the
-- bridge and the watchdog exchange. Numbers are integers; fractions are left out.
use ai_worker_bridge_mcp.Base.{
  ℕ, zero, suc, Bool, true, false, Option, none, some, [], ◌∷◌, if◌then◌else◌,
}
use ai_worker_bridge_mcp.Base.Text.{Text, text_eq}

mutual
  pub data Json : Type 0 where
    null : Json
    bool : Bool → Json
    int : ℕ → Json
    neg : ℕ → Json
    str : Text → Json
    arr : Items → Json
    obj : Fields → Json

  pub data Items : Type 0 where
    nil : Items
    cons : Json → Items → Items

  pub data Fields : Type 0 where
    end : Fields
    field : Text → Json → Fields → Fields

-- `d.get(key)` on the fields of an object; `json.loads` keeps one value to a key.
unfoldable pub get : Text → Fields → Option Json
unfolding text_eq
get key end = none
get key (field k v fs) = if text_eq k key then some v else get key fs

-- `xs[0]`, `none` where it raises IndexError.
unfoldable pub first : Items → Option Json
first nil = none
first (cons v vs) = some v

-- `bool(v)`; `neg n` is -(n + 1).
unfoldable pub truthy : Json → Bool
truthy null = false
truthy (bool b) = b
truthy (int zero) = false
truthy (int (suc n)) = true
truthy (neg n) = true
truthy (str []) = false
truthy (str (c ∷ s)) = true
truthy (arr nil) = false
truthy (arr (cons v vs)) = true
truthy (obj end) = false
truthy (obj (field k v fs)) = true

-- `a or b` on optional values.
unfoldable pub or_json : Option Json → Option Json → Option Json
unfolding truthy
or_json none b = b
or_json (some a) b = if truthy a then some a else b
