-- ===== src/Tests/Panics.antt =====
-- A request of cmd/api whose handler panics.
use go_kafka.Base.{◌≡◌, refl, [], ◌∷◌, lit, bytes_eq}
use go_kafka.Base.Dict.{lookup, insert}
use go_kafka.Base.Sort.{sort_slice, insert_sorted}
use go_kafka.Http.{Request, blank, http_error, set_header, write_header}
use go_kafka.Middleware.{chain, allow}
use go_kafka.Middleware.Stack.{
  security_headers, cors, recovery, request_id, logger, logged, rate_limiter, request_size, powered,
}
use go_kafka.Middleware.Stack.Logs.{status_or}
use go_kafka.Storage.{list, candidates, passing, page_at}
use go_kafka.Api.{handle_list, atoi_value, scan}
use go_kafka.Api.Routes.{mux, serve}
use go_kafka.Tests.Api.{one_json, plain_config, visit, first_server}
use go_kafka.Tests.Events.{plain, whole}

-- The first index of the page wraps to a negative number.
abbrev far_page : Request
far_page = record {
  method = lit "GET";
  path = lit "/events";
  query = (lit "page", lit "92233720368547760") ∷ (lit "limit", lit "100") ∷ [];
  body = [];
  remote_addr = lit "10.0.0.2";
}

-- The client gets 500, and neither the request nor the error is counted.
far_page_run :
    (status_or 200
        (serve whole plain one_json plain_config visit far_page first_server blank).response.sent
      ≡ 500)
    × ((serve whole plain one_json plain_config visit far_page first_server blank).world.metrics
        ≡ first_server.metrics)
unfolding serve chain security_headers cors recovery request_id logger logged rate_limiter
    request_size powered allow lookup insert bytes_eq mux handle_list atoi_value scan list
    candidates passing page_at sort_slice insert_sorted http_error set_header write_header
far_page_run = (refl, refl)
