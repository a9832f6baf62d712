-- ===== src/Witness/Errors.antt =====
-- A status as its three parts, and an error sent through it.
use flash_sale.Prelude.{Option, some, List, [], ◌∷◌, ◌++◌, ◌≡◌, refl, arith}
use flash_sale.Text.{Text}
use flash_sale.Errorx.{AppError, order_out_of_stock, http_status}
use flash_sale.Grpcerr.{GrpcCode, Detail, error_info, StatusApi, app_error, to_status, from_status}
use flash_sale.Grpcerr.RoundTrip.{from_status-to_status, http_status-from_status}

record PlainStatus : Type 0 where
  pub grpc : GrpcCode
  pub words : Text
  pub extra : List Detail

abbrev attach : PlainStatus → Text → Option PlainStatus
attach s r = some (record s { extra = s.extra ++ error_info r ∷ [] })

abbrev plain_api : StatusApi
plain_api = record {
  Status = PlainStatus;
  new = λ c m. record { grpc = c; words = m; extra = [] };
  with_error_info = attach;
  code = λ s. s.grpc;
  message = λ s. s.words;
  details = λ s. s.extra;
  code-new = λ c m. refl;
  message-new = λ c m. refl;
  details-new = λ c m. refl;
  code-with_error_info = λ s r h. ground (arith, h);
  message-with_error_info = λ s r h. ground (arith, h);
  details-with_error_info = λ s r h. ground (arith, h);
}

abbrev sold_out : AppError
sold_out = record { code = order_out_of_stock; message = 33 ∷ [] }

from_status-to_status_example :
    from_status plain_api (to_status plain_api (app_error sold_out)) ≡ sold_out
from_status-to_status_example = from_status-to_status plain_api sold_out refl

http_status-from_status_example :
    http_status (from_status plain_api (to_status plain_api (app_error sold_out))).code
    ≡ http_status sold_out.code
http_status-from_status_example = http_status-from_status plain_api sold_out
