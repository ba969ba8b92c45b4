-- ===== src/Release/Dormant/Logs.antt =====
-- `requestLogs` of `vercelProofCliPort`, scripts/production-worker-dormant-proof.ts: the rows of
-- `vercel logs --json`. A line is what JSON.parse gives of it, and a row what the reader asks of it.
pub mod Whole
mod Tests
use zao_rental.Common.{
  ℕ, zero, suc, ◌+◌, ◌-◌, ◌*◌, ◌/◌, ◌%◌, ◌^◌, ◌≤◌, ◌<◌, min, max, ◌≡◌, refl, sym, ap, subst, ◌∙◌,
  ◌≢◌, ◌↔◌, ◌⊎◌, inl, inr, Bool, true, false, not, ◌&&◌, ◌||◌, Option, none, some, List, [], ◌∷◌,
  ◌++◌, map, arith, String, str_eq, ltb, leb, ◌==◌, if◌then◌else◌, ltb→lt, leb→le, le→leb, ==_iff,
  ==_refl, Bool-cases, &&-eq-true, Option-cases, length, length-append, any, every, keep, find,
  total, All, All-append, All-imp, total-append, keep-append, includes, In, In-append_left,
  In-append_right, In-append-cases, All-In, In-keep, keep-In, find-In, any-In, every-In,
}
use zao_rental.Common.Checked.{Checked, passed, refused, ◌>>=◌, ◌>>◌, ensure}
use zao_rental.Release.Dormant.{RequestLog}

pub data LogError : Type 0 where
  response_unparseable log_row_invalid log_truncated : LogError

-- An item of `logs`: a text, an object with a message, or of an unknown shape.
pub data LogItem : Type 0 where
  text message : String → LogItem
  unknown : LogItem

pub data RawItems : Type 0 where
  missing not_a_list : RawItems
  items : List LogItem → RawItems

-- A parsed row; a text that is missing is `none`.
pub record RawRow : Type 0 where
  pub request_path : Option String
  pub message : Option String
  pub logs : RawItems
  pub timestamp : Option ℕ
  pub deployment_id : Option String
  pub project_id : Option String
  pub environment : Option String
  pub request_method : Option String
  pub response_status_code : ℕ

-- A line that opens no object, one that does and does not parse, and an object.
pub data Line : Type 0 where
  banner garbled : Line
  row : RawRow → Line

abbrev pub log_limit : ℕ
log_limit = 1000

-- `text(v)`
abbrev text_or_empty : Option String → String
text_or_empty none = ""
text_or_empty (some s) = s

abbrev push : String → List String → List String
push s rest = if str_eq s "" then rest else s ∷ rest

abbrev pub read_items : List LogItem → Checked LogError (List String)
read_items [] = passed []
read_items (text s ∷ is) = do rest ← read_items is; passed (push s rest)
read_items (message s ∷ is) = do rest ← read_items is; passed (push s rest)
read_items (unknown ∷ is) = refused log_row_invalid

abbrev pub read_messages : RawItems → Checked LogError (List String)
read_messages missing = passed []
read_messages not_a_list = refused log_row_invalid
read_messages (items is) = read_items is

abbrev pub path_of : Option String → Checked LogError String
path_of none = refused log_row_invalid
path_of (some s) = passed s

unfoldable pub read_row : RawRow → Checked LogError RequestLog
read_row e = do
  path ← path_of e.request_path
  messages ← read_messages e.logs
  passed (record {
    timestamp = e.timestamp;
    deployment_id = text_or_empty e.deployment_id;
    project_id = e.project_id;
    environment = e.environment;
    request_method = text_or_empty e.request_method;
    request_path = path;
    response_status_code = e.response_status_code;
    messages = push (text_or_empty e.message) messages;
  })

unfoldable pub read_lines : List Line → Checked LogError (List RequestLog)
read_lines [] = passed []
read_lines (banner ∷ ls) = read_lines ls
read_lines (garbled ∷ ls) = refused response_unparseable
read_lines (row e ∷ ls) = do r ← read_row e; rest ← read_lines ls; passed (r ∷ rest)

-- `requestLogs`; `is_blank` says that the whole answer is white space.
unfoldable pub request_logs : List Line → Bool → Checked LogError (List RequestLog)
request_logs ls is_blank = do
  out ← read_lines ls
  ensure (not (length out == 0) || is_blank) response_unparseable
  ensure (ltb (length out) log_limit) log_truncated
  passed out
