-- ===== src/Testing/Lists.antt =====
-- The list of scanned files as PHP prints it, and the reading of it in phper-test/src/context.rs.
use phper.Base.{ℕ, ◌≡◌, ◌≢◌, refl, ◌∙◌, false, Option, some, List, [], ◌∷◌, ◌++◌, returns, ◌==◌}
use phper.Testing.Context.{
  is_space, trim_start, trim_end, trim, push_first, split, read_file, read_files,
}

-- A name with no comma and no white space.
abbrev pub IsPlain : List ℕ → Type 0
IsPlain [] = Unit
IsPlain (c ∷ rest) = ((c == 44) ≡ false) × (is_space c ≡ false) × IsPlain rest

-- Names, each with its content, printed with a comma and a line break behind each but the last.
abbrev pub joined : List (List ℕ × List ℕ) → List ℕ
joined [] = []
joined ((name, content) ∷ []) = name
joined ((name, content) ∷ next ∷ rest) = name ++ (44 ∷ 10 ∷ joined (next ∷ rest))

abbrev pub contents : List (List ℕ × List ℕ) → List ℕ
contents [] = []
contents ((name, content) ∷ rest) = content ++ contents rest

split-plain : (s : List ℕ) → IsPlain s → split 44 s ≡ s ∷ []
split-plain [] h = refl
split-plain (c ∷ rest) (comma, space, h) = rw (split-plain rest h, comma) refl

split-append : (s t : List ℕ) → IsPlain s → split 44 (s ++ (44 ∷ t)) ≡ s ∷ split 44 t
split-append [] t h = refl
split-append (c ∷ rest) t (comma, space, h) = rw (split-append rest t h, comma) refl

trim_end-plain : (s : List ℕ) → IsPlain s → trim_end s ≡ s
trim_end-plain [] h = refl
trim_end-plain (c ∷ []) (comma, space, h) = rw space refl
trim_end-plain (c ∷ d ∷ rest) (comma, space, h) = rw (trim_end-plain (d ∷ rest) h) refl

trim_start-plain : (s : List ℕ) → IsPlain s → trim_start s ≡ s
trim_start-plain [] h = refl
trim_start-plain (c ∷ rest) (comma, space, h) = rw space refl

trim-plain : (s : List ℕ) → IsPlain s → trim s ≡ s
trim-plain s h = rw (trim_start-plain s h) (trim_end-plain s h)

module _ (read_to_string : List ℕ → Option (List ℕ)) where
  -- Each name is a plain text that is not empty, of a file with the content beside it.
  abbrev pub AllRead : List (List ℕ × List ℕ) → Type 0
  AllRead [] = Unit
  AllRead ((name, content) ∷ rest) =
      (name ≢ []) × IsPlain name × (read_to_string name ≡ some content) × AllRead rest

  read_file_lem :
      (name content : List ℕ)
      → name ≢ []
      → read_to_string name ≡ some content
      → read_file read_to_string name ≡ returns content
  unfolding read_file
  read_file_lem [] content h e = absurd (h refl)
  read_file_lem (c ∷ name) content h e = rw e refl

  skip_break :
      (pieces : List (List ℕ))
      → read_files read_to_string (push_first 10 pieces) ≡ read_files read_to_string pieces
  unfolding read_files read_file
  skip_break [] = refl
  skip_break (piece ∷ pieces) = refl

  nothing : read_files read_to_string [] ≡ returns []
  unfolding read_files
  nothing = refl

  read_first :
      (name content more : List ℕ) (pieces : List (List ℕ))
      → name ≢ []
      → IsPlain name
      → read_to_string name ≡ some content
      → read_files read_to_string pieces ≡ returns more
      → read_files read_to_string (name ∷ pieces) ≡ returns (content ++ more)
  unfolding read_files
  read_first name content more pieces h plain e rest =
      rw (trim-plain name plain) (rw (read_file_lem name content h e) (rw rest refl))

  -- From the list of scanned files that PHP prints the contents of all files are read, in order.
  pub read_files-joined :
      (l : List (List ℕ × List ℕ))
      → l ≢ []
      → AllRead l
      → read_files read_to_string (split 44 (joined l)) ≡ returns (contents l)
  read_files-joined [] some_file h = absurd (some_file refl)
  read_files-joined ((name, content) ∷ []) some_file (h, plain, e, rest) =
      rw (split-plain name plain) (read_first name content [] [] h plain e nothing)
  read_files-joined ((name, content) ∷ next ∷ rest) some_file (h, plain, e, others) =
      rw (split-append name (10 ∷ joined (next ∷ rest)) plain) (
        read_first name content (contents (next ∷ rest)) _ h plain e (
          skip_break (split 44 (joined (next ∷ rest)))
          ∙ read_files-joined (next ∷ rest) (λ no. absurd (cc)) others))
