-- ===== src/Session/Locations.antt =====
-- What the locations of the configuration answer over TLS.
use foxy_4_web_server.Handlers.Calls
use foxy_4_web_server.Handlers.Echo
use foxy_4_web_server.Handlers.Init.{static, echo}
use foxy_4_web_server.Base.{none, some, refl}
use foxy_4_web_server.Http.{Request}
use foxy_4_web_server.Session.{Read, Session}
use foxy_4_web_server.Base.{
  if◌then◌else◌, Bool-cases, ok, ℕ, ◌≡◌, refl, ap, inl, inr, Bool, none, some, List, [], ◌∷◌, ◌++◌,
}
use foxy_4_web_server.Base.Bytes.{Bytes, codes, same, before_nul}
use foxy_4_web_server.Base.Bytes.Order.{less}
use foxy_4_web_server.Base.Dict.{Dict, lookup, put, insert}
use foxy_4_web_server.Boost.{Boost}
use foxy_4_web_server.MimeTypes.{extension_to_type}
use foxy_4_web_server.Handlers.Echo.{write_headers, convert_to_rawbody}
use foxy_4_web_server.Handlers.Calls.{Platform}
use foxy_4_web_server.HandlerGenerator.{HandlerMap, dispatch_handler}
use foxy_4_web_server.Session.KeepAlive.{seen}
use foxy_4_web_server.Session.Serving.{page_text, page, Delivers, IsOpen, page_answered}
use foxy_4_web_server.Handlers.Static.Encoding.{url_encode}
use foxy_4_web_server.Handlers.Static.Paths.{get_extension}
use foxy_4_web_server.Handlers.Static.Files.{IsLocal, file_below, handle_request-file}
use foxy_4_web_server.Utility.{content_length_key}

-- An empty header is not written.
write_headers_empty :
    (req k : Bytes) (m : Dict Bytes)
    → lookup k m ≡ none
    → write_headers req (put k [] m) ≡ write_headers req m
unfolding write_headers put same lookup
write_headers_empty req k [] e = refl
write_headers_empty req k ((j, v) ∷ m) e = elim (Bool-cases (same j k)) [
  | inl there ↦ let found : some v ≡ none = rw (lookup, there) at e in cc found
  | inr other ↦
      let later : lookup k m ≡ none = rw (lookup, other) at e in
      elim (Bool-cases (less k j)) [
        | inl before ↦ rw (put, other, before) refl
        | inr behind ↦
            rw (put, other, behind)
              (write_headers_empty
                (if same v [] then req else req ++ j ++ codes ": " ++ v ++ codes "\r\n") k m later)
      ]
]

-- The entry that looking for the length leaves is not in the text of the request.
convert_to_rawbody-seen :
    (r : Request)
    → lookup content_length_key r.headers ≡ none
    → convert_to_rawbody (seen r) ≡ convert_to_rawbody r
unfolding convert_to_rawbody insert
convert_to_rawbody-seen r e =
    rw (convert_to_rawbody, insert, e)
      (ap (λ t. t ++ codes "\r\n" ++ r.body) (write_headers_empty _ content_length_key r.headers e))

module _ ⦃b : Boost⦄ {World : Type 0} (p : Platform World) where
  -- The echo handler sends back the bytes of the request.
  pub echo_answered :
      (s : Session World) (r : Request) (reads : List Read) (m : HandlerMap)
      → IsOpen (Calls.handle_request p) s r
      → dispatch_handler r.uri s.generator ≡ (some echo, m)
      → Delivers
          (Calls.handle_request p)
          s
          r
          reads
          (page_text (convert_to_rawbody r) (codes "text/plain"))
  unfolding Calls.handle_request Echo.handle_request
  echo_answered s r reads m opened chosen =
      page_answered (Calls.handle_request p) s r reads echo m s.world (convert_to_rawbody r)
        (codes "text/plain") opened chosen
        (ap (λ t. ok (s.world, page t (codes "text/plain")))
          (convert_to_rawbody-seen r opened.plain.no_length))

  pub file_answered :
      (s : Session World) (r : Request) (reads : List Read) (m : HandlerMap)
      (root path rest content : Bytes) (keep : ℕ → Bool)
      → IsOpen (Calls.handle_request p) s r
      → dispatch_handler r.uri s.generator ≡ (some (static root [] path), m)
      → IsLocal (path ++ rest)
      → r.uri ≡ url_encode keep (path ++ rest)
      → (p.outside s.world).open_file (before_nul (file_below root path rest)) ≡ some content
      → Delivers
          (Calls.handle_request p)
          s
          r
          reads
          (page_text content (extension_to_type (get_extension (file_below root path rest))))
  unfolding Calls.handle_request
  file_answered s r reads m root path rest content keep opened chosen w asked found =
      page_answered (Calls.handle_request p) s r reads (static root [] path) m s.world content
        (extension_to_type (get_extension (file_below root path rest))) opened chosen
        (ap (λ response. ok (s.world, response))
          (handle_request-file root path rest content (p.outside s.world) keep (seen r) w asked
            found))
