-- ===== src/Biz/Permission/Normal.antt =====
-- The texts that the validation lets through.
use Prim.Native.String.{String}
use permission_center_go.Common.{ℕ, ◌≡◌, ◌≤◌, ◌||◌, false, ok, arith, ltb}
use permission_center_go.Text.{trim_space, is_blank, count, len}
use permission_center_go.Text.Trim.{trim_space_idempotent}
use permission_center_go.Biz.Resource.{validate_service_resource}
use permission_center_go.Biz.Permission.{validate_code_and_name, validate_id}

-- A trimmed text that is not blank, of at most `most` by the measure.
pub record IsNormal (measure : String → ℕ) (most : ℕ) (text : String) : Type 0 where
  pub trimmed : trim_space text ≡ text
  pub present : is_blank text ≡ false
  pub fits : measure text ≤ most

abbrev pub IsScope : String → Type 0
IsScope = IsNormal count 128

abbrev pub IsCode : String → Type 0
IsCode = IsNormal len 100

abbrev pub IsName : String → Type 0
IsName = IsNormal count 100

abbrev pub IsIdentifier : String → Type 0
IsIdentifier = IsNormal len 80

IsNormal-trim :
    (measure : String → ℕ) (most : ℕ) (value : String)
    → (is_blank (trim_space value) || ltb most (measure (trim_space value))) ≡ false
    → IsNormal measure most (trim_space value)
IsNormal-trim measure most value h = record {
  trimmed = trim_space_idempotent value;
  present = ground arith;
  fits = ground arith;
}

-- A service resource that is let through is the trimmed text, of 1 to 128 code points.
pub validate_service_resource-IsScope :
    (value : String) {scope : String}
    → validate_service_resource value ≡ ok scope
    → (scope ≡ trim_space value) × IsScope scope
unfolding validate_service_resource
validate_service_resource-IsScope value {scope} h =
    let same : trim_space value ≡ scope = ground arith in
    (ground arith, rw same at (IsNormal-trim count 128 value (ground arith)))

pub validate_id-IsIdentifier :
    (value name : String) {id : String}
    → validate_id value name ≡ ok id
    → (id ≡ trim_space value) × IsIdentifier id
unfolding validate_id
validate_id-IsIdentifier value name {id} h =
    let same : trim_space value ≡ id = ground arith in
    (ground arith, rw same at (IsNormal-trim len 80 value (ground arith)))

pub validate_code_and_name-IsNormal :
    (code name : String) {pair : String × String}
    → validate_code_and_name code name ≡ ok pair
    → (pair.0 ≡ trim_space code) × (pair.1 ≡ trim_space name) × IsCode pair.0 × IsName pair.1
unfolding validate_code_and_name
validate_code_and_name-IsNormal code name {pair} h =
    let same_code : trim_space code ≡ pair.0 = ground arith in
    let same_name : trim_space name ≡ pair.1 = ground arith in
    (
      ground arith,
      ground arith,
      rw same_code at (IsNormal-trim len 100 code (ground arith)),
      rw same_name at (IsNormal-trim count 100 name (ground arith)),
    )

-- Texts that are normal once trimmed are let through.
pub validate_service_resource_of :
    (value : String) {scope : String}
    → scope ≡ trim_space value
    → IsScope scope
    → validate_service_resource value ≡ ok scope
unfolding validate_service_resource
validate_service_resource_of value same normal = ground (arith, normal.present, normal.fits)

pub validate_id_of :
    (value name : String) {id : String}
    → id ≡ trim_space value
    → IsIdentifier id
    → validate_id value name ≡ ok id
unfolding validate_id
validate_id_of value name same normal = ground (arith, normal.present, normal.fits)

pub validate_code_and_name_of :
    (code name : String) {code' name' : String}
    → code' ≡ trim_space code
    → name' ≡ trim_space name
    → IsCode code'
    → IsName name'
    → validate_code_and_name code name ≡ ok (code', name')
unfolding validate_code_and_name
validate_code_and_name_of code name same_code same_name code_normal name_normal =
    ground (arith, code_normal.present, code_normal.fits, name_normal.present, name_normal.fits)
