-- ===== src/LabVerify/Json.antt =====
-- The JavaScript values that demo/lab_verify.js reads, and what the source does with any of them:
-- property access, strict equality, truth. Lists and objects are data types of their own.
use mobydb_render_engine.Base.{
  Bool, true, false, not, ◌&&◌, ◌||◌, [], ◌∷◌, Result, ok, throw, Text, codes, ◌===◌, if◌then◌else◌,
}

mutual
  pub data Json : Type 0 where
    undefined null : Json
    bool : Bool → Json
    -- A finite number, held by its ECMA-262 ToString text: one text for each value.
    num : Text → Json
    -- NaN and the infinities.
    non_finite : Json
    str : Text → Json
    arr : Items → Json
    obj : Fields → Json
    -- A function, symbol or bigint, by its `typeof`.
    other : Text → Json

  pub data Items : Type 0 where
    nil : Items
    cons : Json → Items → Items

  -- The own enumerable properties in the order of `Object.keys`, with distinct keys.
  pub data Fields : Type 0 where
    end : Fields
    field : Text → Json → Fields → Fields

-- The property of an object literal: absent is `undefined`.
abbrev pub get : Text → Fields → Json
get k end = undefined
get k (field j v fs) = if j === k then v else get k fs

-- `v.k` for a key that no built-in prototype has; a read of `null` or `undefined` throws.
abbrev pub prop : Json → Text → Result Json
prop undefined k = throw (codes "TypeError")
prop null k = throw (codes "TypeError")
prop (obj fs) k = ok (get k fs)
prop v k = ok undefined

-- `delete v.k` on a copy.
abbrev pub without : Text → Fields → Fields
without k end = end
without k (field j v fs) = if j === k then without k fs else field j v (without k fs)

abbrev pub is_undefined : Json → Bool
is_undefined undefined = true
is_undefined _ = false

-- `a === b` of two values that share no object: objects are equal only to themselves.
abbrev pub strict_eq : Json → Json → Bool
strict_eq undefined undefined = true
strict_eq null null = true
strict_eq (bool true) (bool true) = true
strict_eq (bool false) (bool false) = true
strict_eq (num s) (num t) = s === t
strict_eq (str s) (str t) = s === t
strict_eq _ _ = false

-- `if (v)`.
abbrev pub is_truthy : Json → Bool
is_truthy undefined = false
is_truthy null = false
is_truthy (bool b) = b
is_truthy (num t) = not (t === codes "0")
is_truthy non_finite = true
is_truthy (str []) = false
is_truthy (str (c ∷ s)) = true
is_truthy _ = true

-- The object has the property itself.
abbrev pub has_own : Text → Fields → Bool
has_own k end = false
has_own k (field j v fs) = (j === k) || has_own k fs

-- Whether the conversion of a value to a text or a number returns. An object of `JSON.parse` takes both
-- methods from its prototype, where only `toString` gives a primitive; a `toString` of its own is not
-- callable there. An array converts its elements, of which `null` and `undefined` are empty.
abbrev mutual
  pub has_primitive : Json → Bool
  has_primitive undefined = true
  has_primitive null = true
  has_primitive (bool b) = true
  has_primitive (num t) = true
  has_primitive non_finite = true
  has_primitive (str s) = true
  has_primitive (arr vs) = all_primitive vs
  has_primitive (obj fs) = not (has_own (codes "toString") fs)
  has_primitive (other t) = not (t === codes "symbol")

  pub all_primitive : Items → Bool
  all_primitive nil = true
  all_primitive (cons v vs) = has_primitive v && all_primitive vs

-- The conversion, as far as it may throw.
abbrev pub to_primitive : Json → Result (Unit {0})
to_primitive v = if has_primitive v then ok tt else throw (codes "TypeError")
