-- ===== src/Testing/Request.antt =====
-- phper-test/src/fpm.rs: `test_fpm_request`. The FastCGI client, which gives what the script printed and
-- the errors, is a parameter.
use phper.Base.{
  ℕ, Option, none, some, List, [], ◌∷◌, ◌++◌, bytes, length, ◌==◌, if◌then◌else◌, is_some, is_utf8,
}
use phper.Testing.Context.{path_is_utf8, FilePath, split}
use phper.Testing.Fpm.{Tested, ◌>>=◌, ◌>>◌, assert}

-- The parameters of the request; the addresses are the client's.
pub record Params : Type 0 where
  pub request_method : List ℕ
  pub script_name : List ℕ
  pub script_filename : FilePath
  pub request_uri : List ℕ
  pub document_uri : List ℕ
  pub server_name : List ℕ
  pub content_type : Option (List ℕ)
  pub content_length : Option ℕ

pub record Output : Type 0 where
  pub stdout : Option (List ℕ)
  pub stderr : Option (List ℕ)

-- `none` where the connection or the request fails.
pub record Client (W : Type 0) : Type 0 where
  pub execute_once : Params → List ℕ → W → Option Output × W

abbrev pub first_piece : List (List ℕ) → List ℕ
first_piece [] = []
first_piece (piece ∷ pieces) = piece

abbrev pub or_empty : Option (List ℕ) → List ℕ
or_empty none = []
or_empty (some s) = s

-- `trim_start_matches('/')`.
abbrev pub trim_slashes : List ℕ → List ℕ
trim_slashes [] = []
trim_slashes (c ∷ rest) = let r = trim_slashes rest in if c == 47 then r else c ∷ rest

abbrev pub body_length : Option (List ℕ) → Option ℕ
body_length none = none
body_length (some body) = some (length body)

-- `document_uri` ends at the question mark, `script_name` does not. The file's path below `root` is kept in
-- one piece.
unfoldable pub request_params :
    (method : List ℕ)
    → (root : FilePath) → (request_uri : List ℕ) → Option (List ℕ)
    → Option (List ℕ)
    → Params
request_params method root request_uri content_type body =
    let script_name = first_piece (split 63 request_uri) in
    record {
      request_method = method;
      script_name = request_uri;
      script_filename = root ++ (trim_slashes script_name ∷ []);
      request_uri = request_uri;
      document_uri = script_name;
      server_name = bytes "phper-test";
      content_type = content_type;
      content_length = body_length body;
    }

-- What is shown of an output.
unfoldable pub shown_output : List ℕ → List ℕ
shown_output out =
    if is_utf8 out
    then (if length out == 0 then bytes "<empty>" else out)
    else bytes "<not utf8 string>"

module _ {W : Type 0} (client : Client W) where
  request : Params → List ℕ → Tested W Output
  request params body s =
      let (o, w) = client.execute_once params body s.world in (o, record s { world = w })

  unfoldable pub test_fpm_request :
      (method : List ℕ)
      → (root : FilePath) → (request_uri : List ℕ) → Option (List ℕ)
      → Option (List ℕ)
      → Tested W (Unit {0})
  unfolding request_params request path_is_utf8
  test_fpm_request method root request_uri content_type body = do
    (λ s. assert (is_some s.fpm_handle) s)
    assert (path_is_utf8 root)
    output ← request (request_params method root request_uri content_type body) (or_empty body)
    assert (length (or_empty output.stderr) == 0)
