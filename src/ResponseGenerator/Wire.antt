-- ===== src/ResponseGenerator/Wire.antt =====
-- The text on the wire.
use foxy_4_web_server.Base.{[], ◌∷◌, ◌++◌, ◌≡◌, refl, ◌∙◌, append_assoc, append-nil, List}
use foxy_4_web_server.Base.Bytes.{Bytes}
use foxy_4_web_server.Base.Dict.{Dict}
use foxy_4_web_server.Base.Dict.Sorted.{IsSorted}
use foxy_4_web_server.Base.Dict.Ascending.{AllLess-of_sorted, put_of_AllLess}
use foxy_4_web_server.Http.{Response}
use foxy_4_web_server.ResponseGenerator.{
  ResponseGenerator, to_buffer, copy_headers, init, header_buffers, to_buffers, crlf,
  name_value_separator,
}

copy_headers-append : (done m : Dict Bytes) → IsSorted (done ++ m) → copy_headers done m ≡ done ++ m
unfolding copy_headers
copy_headers-append done [] s = rw append-nil
copy_headers-append done ((k, v) ∷ m) s =
    rw (put_of_AllLess k v done (AllLess-of_sorted k v done m s))
      (copy_headers-append (done ++ (k, v) ∷ []) m (rw append_assoc s) ∙ rw append_assoc)

-- The bytes of the buffers, one after the other.
abbrev pub wire : List Bytes → Bytes
wire [] = []
wire (b ∷ bs) = b ++ wire bs

-- A line for each header.
abbrev pub header_text : Dict Bytes → Bytes
header_text [] = []
header_text ((k, v) ∷ m) = k ++ name_value_separator ++ v ++ crlf ++ header_text m

wire-append : (a b : List Bytes) → wire (a ++ b) ≡ wire a ++ wire b
wire-append [] b = refl
wire-append (x ∷ a) b = rw (wire-append a b) (rw append_assoc)

wire-header_buffers :
    (bs : List Bytes) (m : Dict Bytes) → wire (header_buffers bs m) ≡ wire bs ++ header_text m
unfolding header_buffers
wire-header_buffers bs [] = rw append-nil
wire-header_buffers bs ((k, v) ∷ m) =
    wire-header_buffers (bs ++ k ∷ name_value_separator ∷ v ∷ crlf ∷ []) m
    ∙ simp (wire-append, append_assoc)

-- What a session sends for a response, whatever its generator held before: the status line, a line
-- for each header in the order of their names, an empty line and the body.
pub wire-to_buffers :
    (g : ResponseGenerator) (r : Response)
    → IsSorted r.headers
    → wire (to_buffers (init g r)) ≡ to_buffer r.code ++ header_text r.headers ++ crlf ++ r.body
unfolding to_buffers init
wire-to_buffers g r s =
    rw (copy_headers-append [] r.headers s, wire-append, wire-header_buffers)
      (simp (append_assoc, append-nil))
