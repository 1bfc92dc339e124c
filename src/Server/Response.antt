-- ===== src/Server/Response.antt =====
-- The replies, as the handlers build them and as the bytes that are sent.
use raspi_cctv_tcp_server.Prelude.{ℕ, ◌+◌, ◌/◌, ◌%◌, String, Text, [], ◌∷◌, ◌++◌, codes}

pub data Response : Type 0 where
  -- {"status": "error", "code": N, "message": "M"}
  error : ℕ → String → Response
  success : ℕ → String → Response
  -- the same without blanks, as the image handler writes it
  image_error : ℕ → String → Response
  uploaded : Text → Response
  -- response.dump()
  dumped : Text → Response

three_digits : ℕ → Text
three_digits n = (48 + n / 100) ∷ (48 + n / 10 % 10) ∷ (48 + n % 10) ∷ []

spaced : String → ℕ → String → Text
unfolding three_digits
spaced status n message =
    codes "{\"status\": \""
    ++ codes status
    ++ codes "\", \"code\": "
    ++ three_digits n
    ++ codes ", \"message\": \""
    ++ codes message
    ++ codes "\"}"

unfoldable pub render : Response → Text
unfolding spaced three_digits
render (error n message) = spaced "error" n message
render (success n message) = spaced "success" n message
render (image_error n message) =
    codes "{\"status\":\"error\",\"code\":"
    ++ three_digits n
    ++ codes ",\"message\":\""
    ++ codes message
    ++ codes "\"}"
render (uploaded path) =
    codes
      "{\"status\":\"success\",\"code\":200,\"message\":\"Image uploaded successfully\",\"path\":\""
    ++ path
    ++ codes "\"}"
render (dumped text) = text
