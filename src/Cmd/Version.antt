-- ===== src/Cmd/Version.antt =====
-- The version that both commands print: `String` of internal/buildinfo/buildinfo.go.
--
-- debug.ReadBuildInfo and the first bytes of a text are arguments.
use Prim.Native.String.{String, ◌++◌ as str_append}
use text.Mathlib.Text.{◌==◌ as str_eq}
use netquality.Prelude.{
  ℕ, ◌≤◌, not, ◌&&◌, List, [], ◌∷◌, Option, none, some, ltb, arith, if◌then◌else◌,
}

-- What the runtime knows of the binary: its module's version, and the settings of its build.
pub record BuildInfo : Type 0 where
  pub main_version : String
  pub settings : List (String × String)

-- The loop over the settings: the first revision fills a commit that is not set.
unfoldable revision : List (String × String) → String → String
revision [] c = c
revision ((key, value) ∷ rest) c =
    revision rest (if str_eq key "vcs.revision" && str_eq c "" then value else c)

unfoldable known_version : Option BuildInfo → String → String
known_version info version = if not (str_eq version "") then version else elim info [
  | none ↦ "devel"
  | some b ↦
      if not (str_eq b.main_version "") && not (str_eq b.main_version "(devel)")
      then b.main_version
      else "devel"
]

unfoldable known_commit : Option BuildInfo → String → String → String
known_commit info version commit =
    if not (str_eq version "")
    then commit
    else elim info [ none ↦ commit | some b ↦ revision b.settings commit ]

module _ (byte_length : String → ℕ) (first_bytes : ℕ → String → String) where
  unfoldable short_commit : String → String
  short_commit c = if ltb 12 (byte_length c) then first_bytes 12 c else c

  -- Of the values that the linker has set.
  unfoldable version_string : Option BuildInfo → String → String → String → String
  version_string info version commit build_time =
      let v = known_version info version in
      let c = short_commit (known_commit info version commit) in
      if str_eq c ""
      then v
      else str_append v (
          str_append " (" (
            str_append c (
              str_append (if str_eq build_time "" then "" else str_append ", built " build_time)
                ")")))

  short_commit-le :
      (c : String) → byte_length (first_bytes 12 c) ≤ 12 → byte_length (short_commit c) ≤ 12
  unfolding short_commit
  short_commit-le c cut = ground arith
