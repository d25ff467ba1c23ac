-- ===== src/Json/Check.antt =====
-- What validateJSONObject accepts: no blank key, no number that JSON lacks, at any depth.
use layeros.Base.{
  ℕ, suc, String, Bool, false, ◌≡◌, refl, ◌↔◌, ok, arith, reject_if-eq-ok, >>=-eq-ok, Bool-cases,
  some, List, [], ◌∷◌, All, inl, inr, ◌==◌, eq_iff, if◌then◌else◌,
}
use layeros.Text.{◌<>◌, is_blank, decimal}
use layeros.Json.{
  Value, null, text, flag, number, non_finite, unsupported, array, object, Items, nil, cons, Fields,
  end, field, validate_value, validate_items, validate_fields, validate_object, get, put, texts,
  text_items,
}

mutual
  pub data IsJson : Value → Type 0 where
    null_json : IsJson null
    text_json : (s : String) → IsJson (text s)
    flag_json : (b : Bool) → IsJson (flag b)
    number_json : (n : String) → IsJson (number n)
    array_json : {xs : Items} → AreJson xs → IsJson (array xs)
    object_json : {fs : Fields} → IsObject fs → IsJson (object fs)

  pub data AreJson : Items → Type 0 where
    no_items : AreJson nil
    more_items : {v : Value} {xs : Items} → IsJson v → AreJson xs → AreJson (cons v xs)

  pub data IsObject : Fields → Type 0 where
    no_fields : IsObject end
    more_fields :
        (k : String) {v : Value} {fs : Fields}
        → is_blank k ≡ false
        → IsJson v
        → IsObject fs
        → IsObject (field k v fs)

mutual
  unfolding validate_value

  accepts_value : {v : Value} → IsJson v → (path : String) → validate_value v path ≡ ok tt
  accepts_value null_json path = refl
  accepts_value (text_json s) path = refl
  accepts_value (flag_json b) path = refl
  accepts_value (number_json n) path = refl
  accepts_value (array_json h) path = accepts_items h path 0
  accepts_value (object_json h) path = accepts_fields h path

  accepts_items :
      {xs : Items} → AreJson xs → (path : String) (index : ℕ) → validate_items xs path index ≡ ok tt
  accepts_items no_items path index = refl
  accepts_items (more_items h hs) path index =
      rw (accepts_value h _) (accepts_items hs path (suc index))

  accepts_fields : {fs : Fields} → IsObject fs → (path : String) → validate_fields fs path ≡ ok tt
  accepts_fields no_fields path = refl
  accepts_fields (more_fields k b h hs) path = rw (b, accepts_value h _) (accepts_fields hs path)

mutual
  unfolding validate_value

  sound_value : (v : Value) (path : String) → validate_value v path ≡ ok tt → IsJson v
  sound_value null path h = null_json
  sound_value (text s) path h = text_json s
  sound_value (flag b) path h = flag_json b
  sound_value (number n) path h = number_json n
  sound_value non_finite path h = cc
  sound_value (unsupported t) path h = cc
  sound_value (array xs) path h = array_json (sound_items xs path 0 h)
  sound_value (object fs) path h = object_json (sound_fields fs path h)

  sound_items :
      (xs : Items) (path : String) (index : ℕ) → validate_items xs path index ≡ ok tt → AreJson xs
  sound_items nil path index h = no_items
  sound_items (cons v xs) path index h =
      let (u, here, rest) =
        >>=-eq-ok (validate_value v (path <> "[" <> decimal index <> "]"))
          (λ _. validate_items xs path (suc index)) h in
      more_items (sound_value v _ here) (sound_items xs path (suc index) rest)

  sound_fields : (fs : Fields) (path : String) → validate_fields fs path ≡ ok tt → IsObject fs
  sound_fields end path h = no_fields
  sound_fields (field k v fs) path h =
      let (b, after) = reject_if-eq-ok (is_blank k) _ _ h in
      let (u, here, rest) =
        >>=-eq-ok (validate_value v (path <> "." <> k)) (λ _. validate_fields fs path) after in
      more_fields k b (sound_value v _ here) (sound_fields fs path rest)

-- `validateJSONObject` accepts a map, whatever the path, exactly when at every depth no key is blank
-- and every value is null, a text, a flag, a finite number, or an array or a map of such.
pub validate_object_iff :
    (fs : Fields) (path : String) → (validate_object fs path ≡ ok tt) ↔ IsObject fs
unfolding validate_object
validate_object_iff fs path = (sound_fields fs path, λ h. accepts_fields h path)

-- Writing a key that is not blank keeps a map valid.
pub put-IsObject :
    (k : String) {v : Value} {fs : Fields}
    → is_blank k ≡ false
    → IsJson v
    → IsObject fs
    → IsObject (put k v fs)
unfolding put
put-IsObject k b hv no_fields = more_fields k b hv no_fields
put-IsObject k {v = w} b hv (more_fields j {v = v} {fs = fs} bj hj hs) =
    elim (Bool-cases (j == k)) [
      | inl e ↦ rw e (more_fields j bj hv hs)
      | inr e ↦ rw e (more_fields j bj hj (put-IsObject k b hv hs))
    ]

-- A literal map of texts is valid if no key of it is blank.
pub texts-IsObject :
    (l : List (String × String)) → All (λ e. is_blank e.0 ≡ false) l → IsObject (texts l)
unfolding texts
texts-IsObject [] h = no_fields
texts-IsObject ((k, v) ∷ l) h = more_fields k h.0 (text_json v) (texts-IsObject l h.1)

pub text_items-AreJson : (l : List String) → AreJson (text_items l)
unfolding text_items
text_items-AreJson [] = no_items
text_items-AreJson (s ∷ l) = more_items (text_json s) (text_items-AreJson l)

-- Reading a key after a write.
pub get-put :
    (k j : String) (v : Value) (fs : Fields)
    → get j (put k v fs) ≡ (if k == j then some v else get j fs)
unfolding get put
get-put k j v end = refl
get-put k j v (field i w fs) = ground (arith, eq_iff k j, eq_iff i k, eq_iff i j, get-put k j v fs)
