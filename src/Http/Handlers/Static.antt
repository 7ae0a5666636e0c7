-- ===== src/Http/Handlers/Static.antt =====
-- The routes that serve documents: health and installer (httpapi/handlers.go), the OpenAPI
-- artifacts (httpapi/openapi.go), the key set (httpapi/server.go) and the flags
-- (httpapi/flags.go).
use orbit_api_gateway.Base.{ℕ, String, Option, none, some, ◌==◌, if◌then◌else◌}
use orbit_api_gateway.Domain.Failure.{Failure}
use orbit_api_gateway.Service.Passed.{list_flags}
use orbit_api_gateway.Http.Message.{
  Response, Conn, HandlerFunc, text, set_header, write_header, write, ◌>>=◌, ◌>>◌, call, answer,
  respond, finish,
}
use orbit_api_gateway.Http.Response.{write_json, error_body}
use orbit_api_gateway.Http.Limits.{Edge}
use orbit_api_gateway.Http.Handlers.Encode.{flag_set_json}

abbrev pub on_response : (Response → Response) → Conn → Conn
on_response f c = record c { response = f c.response }

-- `http.Error`
unfoldable pub http_error : String → ℕ → Response → Response
unfolding set_header write_header write
http_error message status w = write (text message) (
    write_header status (
      set_header "X-Content-Type-Options" "nosniff"
        (set_header "Content-Type" "text/plain; charset=utf-8" w)))

-- `health`
unfoldable pub health_route : HandlerFunc
unfolding set_header write_header write
health_route r = on_response λ w.
    write (text "ok") (write_header 200 (set_header "Content-Type" "text/plain; charset=utf-8" w))

-- `install`, of the script that the assets hold.
unfoldable pub install_route : String → HandlerFunc
unfolding http_error set_header write_header write
install_route script r = on_response λ w.
    if r.path == "/"
    then write (text script) (
        write_header 200 (
          set_header "Cache-Control" "no-cache, no-store, must-revalidate"
            (set_header "Content-Type" "text/x-shellscript; charset=utf-8" w)))
    else http_error "404 page not found\n" 404 w

-- `serveAsset`, of what reading the file gave.
unfoldable pub asset_route : Option String → String → HandlerFunc
unfolding http_error set_header write_header write
asset_route none content_type r = on_response (http_error "spec not found\n" 404)
asset_route (some body) content_type r =
    on_response λ w. write (text body) (write_header 200 (set_header "Content-Type" content_type w))

-- The handler of `ServeJWKS`.
unfoldable pub jwks_route : String → HandlerFunc
unfolding set_header write
jwks_route body r = on_response λ w. write (text body) (
    set_header "Cache-Control" "public, max-age=300"
      (set_header "Content-Type" "application/json" w))

abbrev pub flags_unavailable : Failure → Response → Response
flags_unavailable f w = write_json 502 (error_body "flags unavailable") w

-- `flags`
unfoldable pub flags_route : Edge → HandlerFunc
unfolding list_flags write_json flag_set_json set_header
flags_route edge r c = finish (
    (do
      respond (set_header "Cache-Control" "no-cache")
      set ← call flags_unavailable (list_flags edge.ports edge.auth_http_url)
      answer {A = Unit {0}} (write_json 200 (flag_set_json set)))
      c)
