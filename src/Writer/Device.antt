-- ===== src/Writer/Device.antt =====
-- ectest/internal/pwmw/pwmw.go: the identity of the driver's hwmon device and `Resolve`.
-- sysfs is a value: the entries of class/hwmon in order of their names, each with the content of its `name`
-- file and the real path of its directory; a path is the list of its components, the last one first.
use minisforum_n5pro_fan_pro.Prelude.{
  ℕ, ◌≡◌, refl, ◌↔◌, Bool, true, false, ◌&&◌, Option, none, some, List, [], ◌∷◌, Text, codes,
  text_eq, text_eq_iff, arith, if◌then◌else◌,
}

abbrev pub PathName : Type 0
PathName = List Text

-- `n5driver.ModuleName`.
abbrev pub module_name : Text
module_name = codes "minisforum_n5_it5571"

pub data Attr : Type 0 where
  duty enable : Attr

pub record Device : Type 0 where
  pub name : Text
  pub device_path : PathName
  pub src_version : Text

unfoldable pub path_eq : PathName → PathName → Bool
unfolding text_eq
path_eq [] [] = true
path_eq [] (b ∷ bs) = false
path_eq (a ∷ as') [] = false
path_eq (a ∷ as') (b ∷ bs) = text_eq a b && path_eq as' bs

pub path_eq_iff : (p q : PathName) → (path_eq p q ≡ true) ↔ (p ≡ q)
unfolding path_eq
path_eq_iff [] [] = (λ h. refl, λ h. refl)
path_eq_iff [] (b ∷ bs) = (λ h. cc, λ h. cc)
path_eq_iff (a ∷ as') [] = (λ h. cc, λ h. cc)
path_eq_iff (a ∷ as') (b ∷ bs) = (
  λ h. ground (arith, path_eq_iff as' bs, text_eq_iff a b),
  λ h. ground (arith, path_eq_iff as' bs, text_eq_iff a b),
)

-- `==` on devices.
unfoldable pub device_eq : Device → Device → Bool
unfolding text_eq path_eq
device_eq a b =
    text_eq a.name b.name
    && path_eq a.device_path b.device_path
    && text_eq a.src_version b.src_version

pub device_eq_iff : (a b : Device) → (device_eq a b ≡ true) ↔ (a ≡ b)
unfolding device_eq
device_eq_iff a b = (
  λ h. ground (
    arith,
    text_eq_iff a.name b.name,
    path_eq_iff a.device_path b.device_path,
    text_eq_iff a.src_version b.src_version,
  ),
  λ h. ground (
    arith,
    text_eq_iff a.name b.name,
    path_eq_iff a.device_path b.device_path,
    text_eq_iff a.src_version b.src_version,
  ),
)

pub record HwmonEntry : Type 0 where
  pub name_file : Text  -- "" when it cannot be read
  pub real : Option PathName  -- `none` when the link cannot be resolved

pub record Sysfs : Type 0 where
  pub hwmon : Option (List HwmonEntry)  -- `none` when the directory cannot be read
  pub src_version : Text
  pub exists : PathName → ℕ → Attr → Bool  -- whether an attribute file of a channel is there

pub data DeviceError : Type 0 where
  no_device ambiguous : DeviceError

unfoldable pub driver_entries : List HwmonEntry → List HwmonEntry
unfolding text_eq
driver_entries [] = []
driver_entries (e ∷ es) =
    let rest = driver_entries es in if text_eq e.name_file module_name then e ∷ rest else rest

-- The device above .../hwmon/hwmonN.
unfoldable pub device_dir : PathName → PathName
unfolding text_eq
device_dir (base ∷ parent ∷ rest) =
    if text_eq parent (codes "hwmon") then rest else base ∷ parent ∷ rest
device_dir p = p

pub data Resolved : Type 0 where
  found : Device → PathName → Resolved
  failed : DeviceError → Resolved

unfoldable pub resolve_entry : Text → Option PathName → Resolved
unfolding device_dir
resolve_entry src none = failed no_device
resolve_entry src (some real) =
    found (record { name = module_name; device_path = device_dir real; src_version = src }) real

unfoldable pub resolve_entries : Text → List HwmonEntry → Resolved
unfolding resolve_entry
resolve_entries src [] = failed no_device
resolve_entries src (e ∷ []) = resolve_entry src e.real
resolve_entries src (e ∷ f ∷ es) = failed ambiguous

unfoldable pub resolve : Sysfs → Resolved
unfolding resolve_entries driver_entries
resolve s = elim s.hwmon [
  | none ↦ failed no_device
  | some es ↦ resolve_entries s.src_version (driver_entries es)
]
