-- ===== src/Config/Load/Interpolated.antt =====
-- What the interpolation makes of a text that is put together from plain parts and variables.
use Prim.Native.Char.{Char, code}
use Prim.Native.String
use text.Mathlib.TextLemmas.{cons-append, nil-append}
use poolbeg.Prelude.{
  ◌≡◌, refl, sym, ap, ◌∙◌, true, false, List, [], ◌∷◌, Option, none, some, String, str_eq, ◌==◌,
  if◌then◌else◌, unwrap_or, All, str_ne_nil,
}
use poolbeg.Prelude.Strings.Lacks.{Lacks, Lacks-append}
use poolbeg.Config.Load.{
  before, split_default, up_to_brace, capture, value_of, interpolate, interpolate_env_vars,
}

-- `${name}`, `${name:-default}`, and text between them.
pub data Piece : Type 0 where
  plain variable : String → Piece
  variable_or : (name default : String) → Piece

abbrev expression : Piece → String
expression (plain s) = s
expression (variable name) = name
expression (variable_or name default) = String.◌++◌ name (String.◌++◌ ":-" default)

abbrev braced : String → String → String
braced e rest = String.◌∷◌ "$" (String.◌∷◌ "{" (String.◌++◌ e (String.◌∷◌ "}" rest)))

-- The text of the pieces, and what it stands for.
abbrev pub template_text : List Piece → String
template_text [] = ""
template_text (plain s ∷ ps) = String.◌++◌ s (template_text ps)
template_text (p ∷ ps) = braced (expression p) (template_text ps)

abbrev pub rendered : (String → Option String) → List Piece → String
rendered env [] = ""
rendered env (plain s ∷ ps) = String.◌++◌ s (rendered env ps)
rendered env (variable name ∷ ps) = String.◌++◌ (unwrap_or (env name) "") (rendered env ps)
rendered env (variable_or name default ∷ ps) =
    String.◌++◌ (if str_eq (unwrap_or (env name) "") "" then default else unwrap_or (env name) "")
      (rendered env ps)

-- Plain text has no dollar sign, a name no brace and no colon, a default no brace.
abbrev pub IsClear : Piece → Type 0
IsClear (plain s) = Lacks "$" s
IsClear (variable name) = (str_eq name "" ≡ false) × Lacks "}" name × Lacks ":" name
IsClear (variable_or name default) = Lacks "}" name × Lacks ":" name × Lacks "}" default

split_default-Lacks : (s : String) → Lacks ":" s → split_default s ≡ none
unfolding split_default
split_default-Lacks String.[] h = refl
split_default-Lacks (String.◌∷◌ x String.[]) h = refl
split_default-Lacks (String.◌∷◌ x (String.◌∷◌ y s)) (ne, h) =
    rw ne (rw (split_default-Lacks (String.◌∷◌ y s) h))

-- A text that begins with a character that is no colon.
split_default-skip :
    (x y : Char) (s : String)
    → (code x == code ":") ≡ false
    → split_default (String.◌∷◌ x (String.◌∷◌ y s)) ≡ before x (split_default (String.◌∷◌ y s))
unfolding split_default
split_default-skip x y s ne = rw ne

split_default-append :
    (name d : String)
    → Lacks ":" name
    → split_default (String.◌++◌ name (String.◌∷◌ ":" (String.◌∷◌ "-" d))) ≡ some (name, d)
unfolding split_default
split_default-append String.[] d h =
    ap split_default (nil-append (String.◌∷◌ ":" (String.◌∷◌ "-" d)))
split_default-append (String.◌∷◌ x String.[]) d (ne, h) =
    ap split_default (
      cons-append x String.[] (String.◌∷◌ ":" (String.◌∷◌ "-" d))
      ∙ ap (String.◌∷◌ x) (nil-append (String.◌∷◌ ":" (String.◌∷◌ "-" d))))
    ∙ split_default-skip x ":" (String.◌∷◌ "-" d) ne
split_default-append (String.◌∷◌ x (String.◌∷◌ y s)) d (ne, h) =
    ap split_default (
      cons-append x (String.◌∷◌ y s) (String.◌∷◌ ":" (String.◌∷◌ "-" d))
      ∙ ap (String.◌∷◌ x) (cons-append y s (String.◌∷◌ ":" (String.◌∷◌ "-" d))))
    ∙ (split_default-skip x y (String.◌++◌ s (String.◌∷◌ ":" (String.◌∷◌ "-" d))) ne
        ∙ ap (before x) (
            ap split_default (sym (cons-append y s (String.◌∷◌ ":" (String.◌∷◌ "-" d))))
            ∙ split_default-append (String.◌∷◌ y s) d h))

up_to_brace-append :
    (e rest : String) → Lacks "}" e → up_to_brace (String.◌++◌ e (String.◌∷◌ "}" rest)) ≡ some e
unfolding up_to_brace
up_to_brace-append String.[] rest h = ap up_to_brace (nil-append (String.◌∷◌ "}" rest))
up_to_brace-append (String.◌∷◌ x e) rest (ne, h) =
    ap up_to_brace (cons-append x e (String.◌∷◌ "}" rest))
    ∙ (rw ne (rw (up_to_brace-append e rest h)))

capture-braced :
    (e rest : String) → str_eq e "" ≡ false → Lacks "}" e → capture (braced e rest) ≡ some e
unfolding capture
capture-braced e rest ne h = rw (up_to_brace-append e rest h) (rw ne)

capture-other :
    (x : Char) (s : String) → (code x == code "$") ≡ false → capture (String.◌∷◌ x s) ≡ none
unfolding capture
capture-other x String.[] ne = refl
capture-other x (String.◌∷◌ y s) ne = rw ne

separator : (d : String) → String.◌++◌ ":-" d ≡ String.◌∷◌ ":" (String.◌∷◌ "-" d)
separator d =
    cons-append ":" "-" d
    ∙ ap (String.◌∷◌ ":") (cons-append "-" "" d ∙ ap (String.◌∷◌ "-") (nil-append d))

nonempty : (name d : String) → str_eq (expression (variable_or name d)) "" ≡ false
nonempty String.[] d =
    ap (λ s. str_eq s "") (nil-append (String.◌++◌ ":-" d) ∙ separator d)
    ∙ str_ne_nil ":" (String.◌∷◌ "-" d)
nonempty (String.◌∷◌ x s) d =
    ap (λ t. str_eq t "") (cons-append x s (String.◌++◌ ":-" d))
    ∙ str_ne_nil x (String.◌++◌ s (String.◌++◌ ":-" d))

module _ (env : String → Option String) where
  -- The rest of a match is passed over.
  inside :
      (e rest : String)
      → Lacks "}" e
      → interpolate env true (String.◌++◌ e (String.◌∷◌ "}" rest)) ≡ interpolate env false rest
  unfolding interpolate
  inside String.[] rest h = ap (interpolate env true) (nil-append (String.◌∷◌ "}" rest))
  inside (String.◌∷◌ x e) rest (ne, h) =
      ap (interpolate env true) (cons-append x e (String.◌∷◌ "}" rest))
      ∙ (rw (ne, interpolate) (inside e rest h))

  interpolate-unmatched :
      (x : Char) (s : String)
      → capture (String.◌∷◌ x s) ≡ none
      → interpolate env false (String.◌∷◌ x s) ≡ String.◌∷◌ x (interpolate env false s)
  unfolding interpolate
  interpolate-unmatched x s e = rw (e, interpolate)

  interpolate-matched :
      (x : Char) (s expr : String)
      → capture (String.◌∷◌ x s) ≡ some expr
      → interpolate env false (String.◌∷◌ x s)
        ≡ String.◌++◌ (value_of env expr) (interpolate env true s)
  unfolding interpolate
  interpolate-matched x s expr e = rw (e, interpolate)

  outside :
      (s rest : String)
      → Lacks "$" s
      → interpolate env false (String.◌++◌ s rest) ≡ String.◌++◌ s (interpolate env false rest)
  outside String.[] rest h =
      ap (interpolate env false) (nil-append rest) ∙ sym (nil-append (interpolate env false rest))
  outside (String.◌∷◌ x s) rest (ne, h) =
      ap (interpolate env false) (cons-append x s rest)
      ∙ (interpolate-unmatched x (String.◌++◌ s rest) (capture-other x (String.◌++◌ s rest) ne)
          ∙ (ap (String.◌∷◌ x) (outside s rest h)
              ∙ sym (cons-append x s (interpolate env false rest))))

  brace_passed : (s : String) → interpolate env true (String.◌∷◌ "{" s) ≡ interpolate env true s
  unfolding interpolate
  brace_passed s = refl

  at_match :
      (e rest : String)
      → str_eq e "" ≡ false
      → Lacks "}" e
      → interpolate env false (braced e rest)
        ≡ String.◌++◌ (value_of env e) (interpolate env false rest)
  at_match e rest ne h =
      interpolate-matched "$" (String.◌∷◌ "{" (String.◌++◌ e (String.◌∷◌ "}" rest))) e
        (capture-braced e rest ne h)
      ∙ ap (String.◌++◌ (value_of env e))
          (brace_passed (String.◌++◌ e (String.◌∷◌ "}" rest)) ∙ inside e rest h)

  value_of-variable : (name : String) → Lacks ":" name → value_of env name ≡ unwrap_or (env name) ""
  unfolding value_of
  value_of-variable name h = rw (split_default-Lacks name h, value_of)

  value_of-variable_or :
      (name d : String)
      → Lacks ":" name
      → value_of env (expression (variable_or name d))
        ≡ (if str_eq (unwrap_or (env name) "") "" then d else unwrap_or (env name) "")
  unfolding value_of
  value_of-variable_or name d h = rw (separator d) (rw (split_default-append name d h, value_of))

  -- A text that is put together from plain parts, `${name}` and `${name:-default}`, where no plain part
  -- has a dollar sign, no name has a brace or a colon, no lone name is empty and no default has a brace:
  -- each variable is replaced by its value, or by the default where there is one and the variable is unset
  -- or empty, and everything else stays.
  pub interpolate_env_vars-template_text :
      (ps : List Piece)
      → All IsClear ps
      → interpolate_env_vars env (template_text ps) ≡ rendered env ps
  unfolding interpolate interpolate_env_vars
  interpolate_env_vars-template_text [] h = refl
  interpolate_env_vars-template_text (plain s ∷ ps) (h, hs) =
      outside s (template_text ps) h ∙ ap (String.◌++◌ s) (interpolate_env_vars-template_text ps hs)
  interpolate_env_vars-template_text (variable name ∷ ps) ((ne, h, k), hs) =
      at_match name (template_text ps) ne h
      ∙ (ap (λ v. String.◌++◌ v (interpolate env false (template_text ps)))
            (value_of-variable name k)
          ∙ ap (String.◌++◌ (unwrap_or (env name) "")) (interpolate_env_vars-template_text ps hs))
  interpolate_env_vars-template_text (variable_or name d ∷ ps) ((h, k, l), hs) =
      at_match (expression (variable_or name d)) (template_text ps) (nonempty name d)
        (Lacks-append "}" name (String.◌++◌ ":-" d) h (Lacks-append "}" ":-" d (refl, (refl, _)) l))
      ∙ (ap (λ v. String.◌++◌ v (interpolate env false (template_text ps)))
            (value_of-variable_or name d k)
          ∙ ap
              (String.◌++◌
                (if str_eq (unwrap_or (env name) "") "" then d else unwrap_or (env name) ""))
              (interpolate_env_vars-template_text ps hs))
