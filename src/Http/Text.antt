-- ===== src/Http/Text.antt =====
-- The C strings and std::string of the HTTP samples (samples/http_sync_async_server and
-- samples/simple_http_server), as lists of bytes without a NUL.
use Prim.Native.Char.{code}
use Prim.Native.String.{String}
use gexecutor.Prelude.{
  ℕ, zero, suc, ◌+◌, Bool, true, false, ◌&&◌, ◌||◌, Option, none, some, List, [], ◌∷◌, ◌++◌, length,
  leb, ◌==◌, if◌then◌else◌,
}

abbrev pub Bytes : Type 0
Bytes = List ℕ

-- The bytes of a literal.
abbrev pub ascii : String → Bytes
ascii String.[] = []
ascii (String.◌∷◌ c s) = code c ∷ ascii s

abbrev pub take : ℕ → Bytes → Bytes
take zero s = []
take (suc n) [] = []
take (suc n) (c ∷ s) = c ∷ take n s

abbrev pub drop : ℕ → Bytes → Bytes
drop zero s = s
drop (suc n) [] = []
drop (suc n) (c ∷ s) = drop n s

abbrev pub starts_with : (start s : Bytes) → Bool
starts_with [] s = true
starts_with (b ∷ start) [] = false
starts_with (b ∷ start) (c ∷ s) = c == b && starts_with start s

-- std::string::find: the first position, or npos.
unfoldable pub find : (part s : Bytes) → Option ℕ
find part [] = if starts_with part [] then some 0 else none
find part (c ∷ s) =
    let later = find part s in
    if starts_with part (c ∷ s)
    then some 0
    else elim later [ none ↦ none | some pos ↦ some (suc pos) ]

-- `pos != std::string::npos && pos == 0`
abbrev pub at_start : Option ℕ → Bool
at_start none = false
at_start (some pos) = pos == 0

-- std::string::substr up to the end: beyond the length it throws out_of_range.
abbrev pub substr : (pos : ℕ) → Bytes → Option Bytes
substr pos s = if leb pos (length s) then some (drop pos s) else none

-- strchr, of which only NULL matters, and strrchr, which returns the rest from the last `c` on.
abbrev pub strchr : (c : ℕ) → Bytes → Bool
strchr c [] = false
strchr c (b ∷ s) = b == c || strchr c s

unfoldable pub strrchr : (c : ℕ) → Bytes → Option Bytes
strrchr c [] = none
strrchr c (b ∷ s) =
    let later = strrchr c s in
    elim later [ some t ↦ some t | none ↦ if b == c then some (b ∷ s) else none ]

-- evutil_ascii_strcasecmp, of which only 0 matters.
abbrev pub tolower : ℕ → ℕ
tolower c = if leb b'A' c && leb c b'Z' then c + 32 else c

abbrev pub same_text : Bytes → Bytes → Bool
same_text [] [] = true
same_text [] (c ∷ t) = false
same_text (b ∷ s) [] = false
same_text (b ∷ s) (c ∷ t) = tolower b == tolower c && same_text s t

-- evutil_snprintf(whole_path, 2048, "%s/%s", docroot, path)
abbrev pub whole_path : (docroot path : Bytes) → Bytes
whole_path docroot path = take 2047 (docroot ++ b'/' ∷ path)
