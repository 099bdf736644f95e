-- ===== src/Overrides/References.antt =====
-- parseImageReference of operator/pkg/overrides/overrides.go against the written form of an image
-- reference, in both directions.
use konflux_ci.Prelude.{
  String, true, false, ◌≡◌, ◌↔◌, subst, refl, sym, ap, ◌∙◌, Option, none, some, ◌&◌, ◌==◌,
  string_eq, eq_of_beq, if◌then◌else◌, arith, inl, inr, Bool-cases,
}
use konflux_ci.Overrides.Cuts.{
  has_char, has_char-append, cut_first, cut_last, trim_space, cut_first-some, cut_last-some,
  cut_first-none, cut_last-none, cut_first-append, cut_last-append, uncut_first, uncut_last,
  cut_first-before,
}
use konflux_ci.Overrides.Images.{
  ImageReference, bare, is_oci_image_digest, parse_tagged, parse_at, parse_trimmed,
  parse_image_reference,
}

-- How the parts of a reference stand in its text. What stands behind the first "@" is the digest where
-- it begins as one, and else the tag. In a text without "@" a tag stands behind the last ":" where no
-- "/" follows it; a text without such a ":" is a name, and the tag is "latest".
pub data IsWritten (s : String) (r : ImageReference) : Type 0 where
  with_digest :
      s ≡ r.name & "@" & r.digest
      → has_char "@" r.name ≡ false
      → is_oci_image_digest r.digest ≡ true
      → r.tag ≡ ""
      → IsWritten s r
  with_tag_at :
      s ≡ r.name & "@" & r.tag
      → has_char "@" r.name ≡ false
      → is_oci_image_digest r.tag ≡ false
      → r.digest ≡ ""
      → IsWritten s r
  with_tag :
      s ≡ r.name & ":" & r.tag
      → has_char "@" s ≡ false
      → has_char "/" r.tag ≡ false
      → has_char ":" r.tag ≡ false
      → r.digest ≡ ""
      → IsWritten s r
  with_port :
      (host rest : String)
      → s ≡ host & ":" & rest
      → has_char "@" s ≡ false
      → has_char "/" rest ≡ true
      → has_char ":" rest ≡ false
      → r ≡ bare s
      → IsWritten s r
  plain : has_char "@" s ≡ false → has_char ":" s ≡ false → r ≡ bare s → IsWritten s r

parse_tagged-IsWritten :
    (s : String) (c : Option (String × String))
    → cut_last ":" s ≡ c
    → has_char "@" s ≡ false
    → IsWritten s (parse_tagged s c)
parse_tagged-IsWritten s none e a = plain a (uncut_last ":" s e) refl
parse_tagged-IsWritten s (some (name, tag)) e a =
    let cut = cut_last-some ":" s name tag e in
    elim (Bool-cases (has_char "/" tag)) [
      | inl h ↦ rw (h) (with_port name tag cut.0 a h cut.1 refl)
      | inr h ↦ rw (h) (with_tag cut.0 a h cut.1 refl)
    ]

parse_at-IsWritten :
    (s : String) (c : Option (String × String)) → cut_first "@" s ≡ c → IsWritten s (parse_at s c)
parse_at-IsWritten s none e = parse_tagged-IsWritten s _ refl (uncut_first "@" s e)
parse_at-IsWritten s (some (name, rest)) e =
    let cut = cut_first-some "@" s name rest e in
    let before = cut_first-before "@" s name rest e in
    elim (Bool-cases (is_oci_image_digest rest)) [
      | inl h ↦ rw (h) (with_digest cut before h refl)
      | inr h ↦ rw (h) (with_tag_at cut before h refl)
    ]

parse_trimmed-at :
    (name rest : String)
    → has_char "@" name ≡ false
    → parse_trimmed (name & "@" & rest) ≡ parse_at (name & "@" & rest) (some (name, rest))
parse_trimmed-at name rest n = rw (cut_first-append "@" name rest n) refl

parse_trimmed-colon :
    (name rest : String)
    → has_char "@" (name & ":" & rest) ≡ false
    → has_char ":" rest ≡ false
    → parse_trimmed (name & ":" & rest) ≡ parse_tagged (name & ":" & rest) (some (name, rest))
parse_trimmed-colon name rest a c =
    rw (cut_first-none "@" (name & ":" & rest) a, cut_last-append ":" name rest c) refl

-- Each written form is read back.
parse_trimmed_lem : (s : String) (r : ImageReference) → IsWritten s r → parse_trimmed s ≡ r
parse_trimmed_lem s r (with_digest e n d t) =
    ap parse_trimmed e
    ∙ parse_trimmed-at r.name r.digest n
    ∙ (rw (d) (ap (λ x. record r { tag = x }) (sym t)))
parse_trimmed_lem s r (with_tag_at e n d t) =
    ap parse_trimmed e
    ∙ parse_trimmed-at r.name r.tag n
    ∙ (rw (d) (ap (λ x. record r { digest = x }) (sym t)))
parse_trimmed_lem s r (with_tag e a l c t) =
    ap parse_trimmed e
    ∙ parse_trimmed-colon r.name r.tag (subst (λ x. has_char "@" x ≡ false) e a) c
    ∙ (rw (l) (ap (λ x. record r { digest = x }) (sym t)))
parse_trimmed_lem s r (with_port host rest e a l c t) =
    ap parse_trimmed e
    ∙ parse_trimmed-colon host rest (subst (λ x. has_char "@" x ≡ false) e a) c
    ∙ (rw (l) refl)
    ∙ ap bare (sym e)
    ∙ sym t
parse_trimmed_lem s r (plain a c t) = rw (cut_first-none "@" s a, cut_last-none ":" s c) (sym t)

-- parseImageReference answers a reference exactly if the trimmed text is a written form of it: the name,
-- an "@" that is the first, and a digest, or a tag that does not begin as a digest; or, without an "@", the
-- name, a ":" and a tag without "/" and ":"; or, where the last ":", if there is one, is followed by a "/",
-- the name alone, with the tag "latest".
pub parse_image_reference-IsWritten :
    (s : String) (r : ImageReference) → (parse_image_reference s ≡ r) ↔ IsWritten (trim_space s) r
unfolding parse_image_reference
parse_image_reference-IsWritten s r = (
  λ e. subst (IsWritten (trim_space s)) e (parse_at-IsWritten (trim_space s) _ refl),
  λ w. parse_trimmed_lem (trim_space s) r w,
)

-- The text of a reference that has a tag or a digest.
abbrev pub image_text : ImageReference → String
image_text r = if r.digest == "" then r.name & ":" & r.tag else r.name & "@" & r.digest

-- A reference with a tag, or with a digest.
pub data IsReference (r : ImageReference) : Type 0 where
  tagged :
      r.digest ≡ ""
      → has_char "@" r.tag ≡ false
      → has_char ":" r.tag ≡ false
      → has_char "/" r.tag ≡ false
      → IsReference r
  digested : is_oci_image_digest r.digest ≡ true → r.tag ≡ "" → IsReference r

parse_trimmed-tagged :
    (name tag : String)
    → has_char "@" name ≡ false
    → has_char "@" tag ≡ false
    → has_char ":" tag ≡ false
    → has_char "/" tag ≡ false
    → parse_trimmed (name & ":" & tag) ≡ record { name = name; tag = tag; digest = "" }
unfolding has_char
parse_trimmed-tagged name tag n a c l =
    let no_at : has_char "@" (name & ":" & tag) ≡ false =
      has_char-append "@" name (":" & tag) ∙ ground (arith, n, a, has_char-append "@" ":" tag) in
    rw (cut_first-none "@" _ no_at, cut_last-append ":" name tag c, l) refl

parse_trimmed-digested :
    (name digest : String)
    → has_char "@" name ≡ false
    → is_oci_image_digest digest ≡ true
    → parse_trimmed (name & "@" & digest) ≡ record { name = name; tag = ""; digest = digest }
parse_trimmed-digested name digest n d = rw (cut_first-append "@" name digest n, d) refl

digest-not_empty : (d : String) → is_oci_image_digest d ≡ true → (d == "") ≡ false
unfolding is_oci_image_digest
digest-not_empty d h = elim (Bool-cases (d == "")) [
  | inr n ↦ n
  | inl e ↦ absurd (cc (ap is_oci_image_digest (eq_of_beq e)))
]

-- Parsing the text of a reference gives the reference back, when its name has no "@", there is no
-- space around the text, and it has a tag without "@", ":" and "/", or a digest.
pub parse_image_reference-image_text :
    (r : ImageReference)
    → has_char "@" r.name ≡ false
    → trim_space (image_text r) ≡ image_text r
    → IsReference r
    → parse_image_reference (image_text r) ≡ r
unfolding parse_image_reference
parse_image_reference-image_text r name trimmed (tagged none_left a c l) =
    let text : image_text r ≡ r.name & ":" & r.tag = rw (none_left) refl in
    ap parse_trimmed (trimmed ∙ text)
    ∙ parse_trimmed-tagged r.name r.tag name a c l
    ∙ ap (λ d. record r { digest = d }) (sym none_left)
parse_image_reference-image_text r name trimmed (digested d no_tag) =
    let text : image_text r ≡ r.name & "@" & r.digest = rw (digest-not_empty r.digest d) refl in
    ap parse_trimmed (trimmed ∙ text)
    ∙ parse_trimmed-digested r.name r.digest name d
    ∙ ap (λ t. record r { tag = t }) (sym no_tag)
