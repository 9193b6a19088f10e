-- ===== src/Web/Tests.antt =====
-- The theorems on the web client of Tema_3 at concrete inputs.
mod Transport
mod Session
mod Program
mod Served
mod Granted
use communication_protocols.Base.{
  ℕ, ◌≡◌, refl, inl, true, false, Option, none, some, [], ◌==◌, codes, dec_lt, lt_wf,
}
use communication_protocols.Web.Buffer.{
  Buffer, buffer_init, buffer_destroy, buffer_is_empty, buffer_add, buffer_find,
  buffer_find_insensitive, tolower, realloc, memcpy,
}
use communication_protocols.Web.Buffer.Contents.{Contents, buffer_add-Contents, buffer_lifecycle}
use communication_protocols.Web.Buffer.Find.{
  IsFirst, buffer_find-IsFirst, buffer_find_insensitive-IsFirst,
}
use communication_protocols.Web.Requests.{
  compute_get_request, compute_post_request, compute_del_request, add_line, add_optional,
  compute_message, sprintf,
}
use communication_protocols.CString.{decimal, decimal_acc}
use communication_protocols.Web.Requests.Lines.{
  message_of, bare_lines, post_lines, compute_get_request_lem, compute_post_request_lem,
  compute_del_request_lem,
}

abbrev held : Buffer
held = record { block = some (codes "HTTP\r\n"); size = 6 }

held-Contents : Contents held (codes "HTTP\r\n")
held-Contents = record { block = inl refl; size = refl }

buffer_add-Contents_example :
    (b' : Buffer) × (buffer_add 255 held (codes "ab") ≡ some b') × Contents b' (codes "HTTP\r\nab")
buffer_add-Contents_example =
    buffer_add-Contents 255 held (codes "HTTP\r\n") (codes "ab") held-Contents

held_add :
    buffer_add 255 held (codes "ab") ≡ some (record { block = some (codes "HTTP\r\nab"); size = 8 })
unfolding buffer_add realloc memcpy
held_add = refl

compute_post_request_lem_example :
    compute_post_request
      (codes "h")
      (codes "/a")
      none
      (codes "text/plain")
      (codes "hello world")
      none
    ≡ message_of
        (post_lines (codes "h") (codes "/a") none (codes "text/plain") (codes "hello world") none)
compute_post_request_lem_example =
    compute_post_request_lem (codes "h") (codes "/a") none (codes "text/plain")
      (codes "hello world") none

-- What such a request is.
post_run :
    compute_post_request
      (codes "h")
      (codes "/a")
      none
      (codes "text/plain")
      (codes "hello world")
      none
    ≡ some (
        codes
          "POST /a HTTP/1.1\r\nHost: h\r\nContent-Type: text/plain\r\nContent-Length: 11\r\n\r\nhello world\r\n")
unfolding compute_post_request add_line add_optional compute_message sprintf decimal decimal_acc
    lt_wf dec_lt
post_run = refl
