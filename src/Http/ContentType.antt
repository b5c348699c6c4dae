-- ===== src/Http/ContentType.antt =====
-- guess_content_type of samples/http_sync_async_server/http_hybrid_server.cc, which
-- samples/simple_http_server/simple_http_server.cc repeats.
use gexecutor.Prelude.{
  ℕ, ◌≡◌, ◌⊎◌, inl, inr, refl, ap, ◌∙◌, Bool, ◌&&◌, ◌||◌, true, false, none, some, List, [], ◌∷◌,
  ◌++◌, map, ◌==◌, if◌then◌else◌, arith, Bool-cases,
}
use gexecutor.Http.Text.{Bytes, ascii, drop, strchr, strrchr, tolower, same_text}

-- The rows up to the one with NULL.
abbrev pub content_type_table : List (Bytes × Bytes)
content_type_table =
    (ascii "txt", ascii "text/plain")
    ∷ (ascii "c", ascii "text/plain")
    ∷ (ascii "h", ascii "text/plain")
    ∷ (ascii "html", ascii "text/html")
    ∷ (ascii "htm", ascii "text/htm")
    ∷ (ascii "css", ascii "text/css")
    ∷ (ascii "gif", ascii "image/gif")
    ∷ (ascii "jpg", ascii "image/jpeg")
    ∷ (ascii "jpeg", ascii "image/jpeg")
    ∷ (ascii "png", ascii "image/png")
    ∷ (ascii "pdf", ascii "application/pdf")
    ∷ (ascii "ps", ascii "application/postsript")
    ∷ []

abbrev pub not_found : Bytes
not_found = ascii "application/misc"

-- The `for` over the rows.
pub find_type : List (Bytes × Bytes) → (extension : Bytes) → Bytes
find_type [] extension = not_found
find_type ((ext, content_type) ∷ rows) extension =
    if same_text ext extension then content_type else find_type rows extension

unfoldable pub guess_content_type : (path : Bytes) → Bytes
guess_content_type path = elim (strrchr b'.' path) [
  | none ↦ not_found
  | some last_period ↦
      if strchr b'/' last_period
      then not_found
      else find_type content_type_table (drop 1 last_period)
]

-- strrchr finds nothing, or it splits the string before the last `c`.
strrchr-splits :
    (c : ℕ) (s : Bytes)
    → ((strchr c s ≡ false) × (strrchr c s ≡ none))
      ⊎ ((start rest : Bytes) × (s ≡ start ++ c ∷ rest)
          × (strchr c rest ≡ false)
          × (strrchr c s ≡ some (c ∷ rest)))
unfolding strrchr
strrchr-splits c [] = inl (refl, refl)
strrchr-splits c (b ∷ s) = elim (strrchr-splits c s) [
  | inl (e, f) ↦ elim (Bool-cases (b == c)) [
    | inl g ↦ inr ([], s, ground arith, e, ground arith)
    | inr g ↦ inl (ground arith, ground arith)
  ]
  | inr (start, rest, e, f, g) ↦ inr (b ∷ start, rest, ap (λ (t : Bytes). b ∷ t) e, f, rw g)
]

-- Equality of byte strings, case included.
abbrev pub equal : Bytes → Bytes → Bool
equal [] [] = true
equal [] (c ∷ t) = false
equal (b ∷ s) [] = false
equal (b ∷ s) (c ∷ t) = b == c && equal s t

-- The type that goes with an extension in lower case, by type.
abbrev pub media_type : (extension : Bytes) → Bytes
media_type e =
    if equal (ascii "txt") e || equal (ascii "c") e || equal (ascii "h") e
    then ascii "text/plain"
    else if equal (ascii "html") e
    then ascii "text/html"
    else if equal (ascii "htm") e
    then ascii "text/htm"
    else if equal (ascii "css") e
    then ascii "text/css"
    else if equal (ascii "gif") e
    then ascii "image/gif"
    else if equal (ascii "jpg") e || equal (ascii "jpeg") e
    then ascii "image/jpeg"
    else if equal (ascii "png") e
    then ascii "image/png"
    else if equal (ascii "pdf") e
    then ascii "application/pdf"
    else if equal (ascii "ps") e
    then ascii "application/postsript"
    else ascii "application/misc"

same_text-equal : (a e : Bytes) → same_text a e ≡ equal (map tolower a) (map tolower e)
same_text-equal [] [] = refl
same_text-equal [] (c ∷ t) = refl
same_text-equal (b ∷ s) [] = refl
same_text-equal (b ∷ s) (c ∷ t) = rw (same_text-equal s t) refl

abbrev NoSlash : List (Bytes × Bytes) → Type 0
NoSlash [] = Unit {0}
NoSlash ((ext, _) ∷ rows) = (strchr b'/' ext ≡ false) × NoSlash rows

same_text-slash : (a e : Bytes) → same_text a e ≡ true → strchr b'/' a ≡ strchr b'/' e
same_text-slash [] [] h = refl
same_text-slash [] (c ∷ t) h = cc h
same_text-slash (b ∷ s) [] h = cc h
same_text-slash (b ∷ s) (c ∷ t) h =
    let tail : same_text s t ≡ true = ground (arith, h) in
    let same : (b == b'/') ≡ (c == b'/') = ground (arith, h) in
    rw (same, same_text-slash s t tail) refl

-- No row is found for what has a slash in it.
find_type-slash :
    (rows : List (Bytes × Bytes)) (e : Bytes)
    → NoSlash rows
    → strchr b'/' e ≡ true
    → find_type rows e ≡ not_found
unfolding find_type
find_type-slash [] e n h = refl
find_type-slash ((ext, content_type) ∷ rows) e (m, n) h = elim (Bool-cases (same_text ext e)) [
  | inl g ↦ absurd (ground (arith, same_text-slash ext e g))
  | inr g ↦ rw (g, find_type-slash rows e n h) refl
]

-- The types of the extensions row by row.
media_type-rows :
    (s : Bytes)
    → (if equal (ascii "txt") s
        then ascii "text/plain"
        else if equal (ascii "c") s
        then ascii "text/plain"
        else if equal (ascii "h") s
        then ascii "text/plain"
        else if equal (ascii "html") s
        then ascii "text/html"
        else if equal (ascii "htm") s
        then ascii "text/htm"
        else if equal (ascii "css") s
        then ascii "text/css"
        else if equal (ascii "gif") s
        then ascii "image/gif"
        else if equal (ascii "jpg") s
        then ascii "image/jpeg"
        else if equal (ascii "jpeg") s
        then ascii "image/jpeg"
        else if equal (ascii "png") s
        then ascii "image/png"
        else if equal (ascii "pdf") s
        then ascii "application/pdf"
        else if equal (ascii "ps") s
        then ascii "application/postsript"
        else ascii "application/misc")
      ≡ media_type s
media_type-rows s = elim (Bool-cases (equal (ascii "txt") s)) [
  | inl a ↦ rw a refl
  | inr a ↦ elim (Bool-cases (equal (ascii "c") s)) [
    | inl b ↦ rw (a, b) refl
    | inr b ↦ elim (Bool-cases (equal (ascii "jpg") s)) [
      | inl c ↦ rw (a, b, c) refl
      | inr c ↦ rw (a, b, c) refl
    ]
  ]
]

find_type-media_type : (e : Bytes) → find_type content_type_table e ≡ media_type (map tolower e)
unfolding find_type
find_type-media_type e =
    rw
      (
        same_text-equal (ascii "txt") e,
        same_text-equal (ascii "c") e,
        same_text-equal (ascii "h") e,
        same_text-equal (ascii "html") e,
        same_text-equal (ascii "htm") e,
        same_text-equal (ascii "css") e,
        same_text-equal (ascii "gif") e,
        same_text-equal (ascii "jpg") e,
        same_text-equal (ascii "jpeg") e,
        same_text-equal (ascii "png") e,
        same_text-equal (ascii "pdf") e,
        same_text-equal (ascii "ps") e,
      )
      (media_type-rows (map tolower e))

-- The content type of a path without a period is application/misc. With a last period it is
-- the media type of what follows the period, whatever the case of its letters, also where a slash
-- follows the period.
pub guess_content_type_lem :
    (path : Bytes)
    → ((strchr b'.' path ≡ false) × (guess_content_type path ≡ ascii "application/misc"))
      ⊎ ((stem extension : Bytes) × (path ≡ stem ++ b'.' ∷ extension)
          × (strchr b'.' extension ≡ false)
          × (guess_content_type path ≡ media_type (map tolower extension)))
unfolding guess_content_type
guess_content_type_lem path = elim (strrchr-splits b'.' path) [
  | inl (e, f) ↦ inl (e, rw (f, guess_content_type) refl)
  | inr (stem, extension, e, f, g) ↦ inr (
    stem,
    extension,
    e,
    f,
    rw (g, guess_content_type) (no_row extension ∙ find_type-media_type extension),
  )
]
  where
    no_row :
        (e : Bytes)
        → (if strchr b'/' e then not_found else find_type content_type_table e)
          ≡ find_type content_type_table e
    no_row e = elim (Bool-cases (strchr b'/' e)) [
      | inl h ↦
          rw
            (
              h,
              find_type-slash content_type_table e
                  (
                    refl,
                    (
                      refl,
                      (
                        refl,
                        (refl, (refl, (refl, (refl, (refl, (refl, (refl, (refl, (refl, tt))))))))),
                      ),
                    ),
                  )
                  h,
            )
            refl
      | inr h ↦ rw h refl
    ]
