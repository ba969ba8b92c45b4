-- ===== src/Release/Dormant/Logs/Tests.antt =====
-- A log with a banner, and a row that cannot be read.
use zao_rental.Common.{◌<◌, ◌≡◌, refl, ◌⊎◌, true, false, none, some, List, [], ◌∷◌, String, length}
use zao_rental.Common.Checked.{passed, refused}
use zao_rental.Release.Dormant.{RequestLog}
use zao_rental.Release.Dormant.Logs.{
  LogItem, text, unknown, RawItems, missing, items, RawRow, Line, banner, row, log_limit,
  log_row_invalid, request_logs,
}
use zao_rental.Release.Dormant.Logs.Whole.{AreRows, request_logs-AreRows}

abbrev raw : RawItems → RawRow
raw logs = record {
  request_path = some "/api/internal/worker-tick";
  message = none;
  logs = logs;
  timestamp = some 1700000000000;
  deployment_id = some "dpl_12345678";
  project_id = none;
  environment = none;
  request_method = some "GET";
  response_status_code = 200;
}

abbrev lines : List Line
lines = banner ∷ (row (raw (items (text "dormant" ∷ []))) ∷ (row (raw missing) ∷ []))

abbrev log_of : List String → RequestLog
log_of ms = record {
  timestamp = some 1700000000000;
  deployment_id = "dpl_12345678";
  project_id = none;
  environment = none;
  request_method = "GET";
  request_path = "/api/internal/worker-tick";
  response_status_code = 200;
  messages = ms;
}

abbrev logs : List RequestLog
logs = log_of ("dormant" ∷ []) ∷ (log_of [] ∷ [])

read : request_logs lines false ≡ passed logs
unfolding request_logs zao_rental.Release.Dormant.Logs.read_lines
    zao_rental.Release.Dormant.Logs.read_row
read = refl

unknown_item : request_logs (row (raw (items (unknown ∷ []))) ∷ []) false ≡ refused log_row_invalid
unfolding request_logs zao_rental.Release.Dormant.Logs.read_lines
    zao_rental.Release.Dormant.Logs.read_row
unknown_item = refl

request_logs-AreRows_example :
    AreRows lines logs × (length logs < log_limit) × ((0 < length logs) ⊎ (false ≡ true))
request_logs-AreRows_example = request_logs-AreRows lines false logs read
