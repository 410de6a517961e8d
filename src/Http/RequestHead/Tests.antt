-- ===== src/Http/RequestHead/Tests.antt =====
-- A request's head with one header, and heads that are refused.
use snode.Prelude.{◌≡◌, refl, true, [], ◌∷◌, ◌++◌, Bytes, codes, arith}
use snode.Http.Helpers.{validate_method}
use snode.Http.RequestHead.{
  bad_request, bytes_equal, handle_http_line, header_loop, refused, complete, head, read_head,
  spelt,
}
use snode.Http.RequestHead.Line.{print_line}
use snode.Http.RequestHead.Fields.{IsField, print_fields, store_all, read_head-print}

abbrev host : Bytes × Bytes
host = (codes "Host", codes "snode")

host-IsField : IsField host
host-IsField = record {
  named = omega arith;
  no_colon = (refl, (refl, (refl, (refl, tt))));
  name_in_line = omega arith;
  value_in_line = omega arith;
  name_starts = refl;
  name_ends = refl;
  value_starts = refl;
  value_ends = refl;
}

read_head-print_example :
    read_head bytes_equal 2
      (print_line (codes "PATCH") (codes "/a") 48 ++ 10 ∷ print_fields (host ∷ []) (codes "rest"))
    ≡ head
        (codes "PATCH")
        (codes "/a")
        true
        (complete (store_all bytes_equal (host ∷ []) []) (codes "rest"))
unfolding spelt
read_head-print_example =
    read_head-print bytes_equal (codes "PATCH") (codes "/a") (codes "rest") 48 (host ∷ [])
      (omega arith) (refl, (refl, (refl, (refl, (refl, tt))))) (unfold validate_method in refl)
      (omega arith) (omega arith) (omega arith) (host-IsField, tt)

-- A URL of no characters, and a header without colon.
short : handle_http_line bytes_equal (codes "GET  HTTP/1.1\r\n") ≡ bad_request
unfolding handle_http_line validate_method
short = refl

no_colon : header_loop bytes_equal 3 (codes "Host\r\n\r\n") [] ≡ refused []
unfolding header_loop
no_colon = refl
