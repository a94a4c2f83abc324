-- ===== src/Py/Value.antt =====
-- The values that `orjson.loads` returns, and what the code does with such a value of unknown
-- shape: `v.get(k)`, `v[k]`, `for x in v`, `bool(v)`, `float(v)`, with the exception each raises.
use tickstream_streaming_lak.Prelude.{
  String, Bool, true, false, not, Option, none, some, List, [], ◌∷◌, if◌then◌else◌,
}
use tickstream_streaming_lak.Prelude.Eq.{◌==◌, string_eq, int_eq}
use tickstream_streaming_lak.Prelude.Int.{ℤ, pos}
use tickstream_streaming_lak.Errors.{
  Result, ok, err, value_error, key_error, type_error, attribute_error, ◌>>=◌,
}
use tickstream_streaming_lak.Py.Float.{Double}

mutual
  pub data Json (F : Type 0) : Type 0 where
    null : Json F
    bool : Bool → Json F
    int : ℤ → Json F
    float : F → Json F
    str : String → Json F
    arr : Items F → Json F
    obj : Fields F → Json F

  pub data Items (F : Type 0) : Type 0 where
    end : Items F
    item : Json F → Items F → Items F

  pub data Fields (F : Type 0) : Type 0 where
    close : Fields F
    field : String → Json F → Fields F → Fields F

abbrev chars : {F : Type 0} → String → List (Json F)
chars String.[] = []
chars (String.◌∷◌ c s) = str (String.◌∷◌ c String.[]) ∷ chars s

module _ {F : Type 0} where
  unfoldable pub find : String → Fields F → Option (Json F)
  find k close = none
  find k (field j v fs) = if j == k then some v else find k fs

  unfoldable pub elements : Items F → List (Json F)
  elements end = []
  elements (item v vs) = v ∷ elements vs

  unfoldable pub keys : Fields F → List (Json F)
  keys close = []
  keys (field k v fs) = str k ∷ keys fs

  -- `v.get(k)`, with `none` for the default; only a dict has the method
  unfoldable pub get_field : String → Json F → Result (Option (Json F))
  unfolding find
  get_field k (obj fs) = ok (find k fs)
  get_field k v = err attribute_error

  -- `v.get(k, default)`
  unfoldable pub get_field_or : String → Json F → Json F → Result (Json F)
  unfolding get_field
  get_field_or k default v = do
    found ← get_field k v
    ok (elim found [ none ↦ default | some w ↦ w ])

  -- `v[k]` at a text `k`
  unfoldable pub index : String → Json F → Result (Json F)
  unfolding find
  index k (obj fs) = elim (find k fs) [ none ↦ err key_error | some w ↦ ok w ]
  index k v = err type_error

  -- `for x in v`
  unfoldable pub iterate : Json F → Result (List (Json F))
  unfolding elements keys
  iterate (arr vs) = ok (elements vs)
  iterate (obj fs) = ok (keys fs)
  iterate (str s) = ok (chars s)
  iterate v = err type_error

  -- `v == "..."`
  unfoldable pub is_text : String → Json F → Bool
  is_text s (str t) = t == s
  is_text s v = false

  -- `v is not None` of what `.get` returned
  unfoldable pub present : Option (Json F) → Option (Json F)
  present none = none
  present (some null) = none
  present (some v) = some v

  -- `{k, …} <= v.keys()`
  unfoldable pub has_keys : List String → Json F → Bool
  unfolding find
  has_keys [] (obj fs) = true
  has_keys (k ∷ ks) (obj fs) =
      let rest = has_keys ks (obj fs) in elim (find k fs) [ none ↦ false | some v ↦ rest ]
  has_keys ks v = false

module _ {F : Type 0} ⦃d : Double F⦄ where
  -- `bool(v)`
  unfoldable pub truthy : Json F → Bool
  truthy null = false
  truthy (bool b) = b
  truthy (int n) = not (n == pos 0)
  truthy (float x) = not (d.eq x d.zero_f)
  truthy (str s) = not (s == "")
  truthy (arr end) = false
  truthy (arr (item v vs)) = true
  truthy (obj close) = false
  truthy (obj (field k v fs)) = true

  -- `float(v)`
  unfoldable pub to_float : Json F → Result F
  to_float (str s) = elim (d.parse s) [ none ↦ err value_error | some x ↦ ok x ]
  to_float (float x) = ok x
  to_float (int n) = d.of_int n
  to_float (bool b) = ok (d.of_count (if b then 1 else 0))
  to_float v = err type_error
