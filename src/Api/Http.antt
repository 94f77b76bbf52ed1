-- ===== src/Api/Http.antt =====
-- What the model keeps of HTTP requests and responses. A content type is empty where the program does not
-- set it.
use sigsum_lib_go.Prelude.{ℕ, Option}
use sigsum_lib_go.Prelude.Text.{codes}
use sigsum_lib_go.Crypto.{Bytes}

pub data Method : Type 0 where
  http_get http_post : Method

pub record Request : Type 0 where
  pub method : Method
  pub url : Bytes
  pub token_header : Option Bytes
  pub body : Bytes

pub record Response : Type 0 where
  pub status_code : ℕ
  pub content_type : Bytes
  pub body : Bytes

abbrev pub content_type_tlog_size : Bytes
content_type_tlog_size = codes "text/x.tlog.size"

-- The one that http.Error sets.
abbrev pub content_type_text : Bytes
content_type_text = codes "text/plain; charset=utf-8"
