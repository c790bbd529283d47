-- ===== src/WebSocket/Handshake.antt =====
-- The handshake of src/mqtt/websocket_codec.cpp. The header names are compared in lower case.
use lightapr.Prelude.{
  Bool, true, false, not, ◌||◌, Option, none, some, List, [], ◌∷◌, ◌++◌, if◌then◌else◌,
}
use lightapr.Prelude.Text.{Text, codes, text_eq, empty}
use lightapr.Http.{find, starts_with, pieces, strip_cr, split_at, skip_spaces, to_lower}
use lightapr.WebSocket.Digest.{sha1, base64_encode}

unfoldable pub compute_accept_key : Text → Text
compute_accept_key client_key =
    base64_encode (sha1 (client_key ++ codes "258EAFA5-E914-47DA-95CA-C5AB0DC85B11"))

-- `find(p) != npos`
unfoldable pub contains_text : Text → Text → Bool
contains_text p s = elim (find p s) [ none ↦ false | some i ↦ true ]

-- The key and the protocol of the headers so far.
pub record HandshakeHeaders : Type 0 where
  pub out_key : Text
  pub out_protocol : Text

unfoldable pub read_header : Text → HandshakeHeaders → HandshakeHeaders
read_header line h = elim (split_at b':' line) [
  | none ↦ h
  | some (header_name, header_val) ↦
      if text_eq (to_lower header_name) (codes "sec-websocket-key")
      then record h { out_key = skip_spaces header_val }
      else if text_eq (to_lower header_name) (codes "sec-websocket-protocol")
      then record h { out_protocol = skip_spaces header_val }
      else h
]

-- std::getline; an empty last line holds no header.
unfoldable pub read_headers : List Text → HandshakeHeaders → HandshakeHeaders
read_headers [] h = h
read_headers (line ∷ lines) h = read_headers lines (read_header (strip_cr line) h)

-- `none` is `return false` before the two results are cleared.
unfoldable pub parse_handshake_request : Text → Option (Bool × HandshakeHeaders)
parse_handshake_request request =
    if not (starts_with (codes "GET ") request || starts_with (codes "get ") request)
    then none
    else if not (
        contains_text (codes "Upgrade: websocket") request
        || (contains_text (codes "upgrade: websocket") request
            || contains_text (codes "Upgrade: WebSocket") request))
    then none
    else let h = read_headers (pieces 10 request) (record { out_key = []; out_protocol = [] }) in
      some (not (empty h.out_key), h)

abbrev pub crlf : Text
crlf = 13 ∷ 10 ∷ []

unfoldable pub generate_handshake_response : Text → Text → Text
generate_handshake_response accept_key protocol =
    codes "HTTP/1.1 101 Switching Protocols"
    ++ (crlf
        ++ (codes "Upgrade: websocket"
            ++ (crlf
                ++ (codes "Connection: Upgrade"
                    ++ (crlf
                        ++ (codes "Sec-WebSocket-Accept: "
                            ++ (accept_key
                                ++ (crlf
                                    ++ ((if empty protocol
                                          then []
                                          else codes "Sec-WebSocket-Protocol: "
                                            ++ (protocol ++ crlf))
                                        ++ crlf)))))))))
