-- ===== src/Tests/Upstream.antt =====
-- The proxy at concrete inputs.
use foxy_4_web_server.Base.{some, none, ◌++◌, ◌≡◌, ◌≢◌, refl, ok}
use foxy_4_web_server.Base.Bytes.{codes, find, starts_with}
use foxy_4_web_server.Handlers.Proxy.{clean_html}
use foxy_4_web_server.Handlers.Proxy.Links.{clean_html_doubles, clean_html_ends}

clean_html_doubles_example :
    clean_html (codes "/p/") (codes "href" ++ codes "=/")
    ≡ some (ok ((codes "href" ++ codes "=/") ++ (codes "href" ++ codes "=/")))
unfolding find starts_with
clean_html_doubles_example =
    clean_html_doubles b'/' (codes "p/") (codes "=/") refl (refl, (refl, tt))

clean_html_ends_example : clean_html (codes "/p/") (codes "<a href=\"/x\">") ≢ none
clean_html_ends_example = clean_html_ends (codes "/p/") (codes "<a href=\"/x\">")
