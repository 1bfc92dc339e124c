-- ===== src/Tests/Uploads.antt =====
-- Images and byte order: the theorems on uploads, downloads and `htonll` at concrete inputs.
use raspi_cctv_tcp_server.Prelude.{
  ℕ, ◌-◌, ◌^◌, none, false, [], ◌∷◌, ◌<◌, true, length, take, Text, ◌++◌, codes, ◌≡◌, refl, arith,
  text_eq, c_str,
}
use raspi_cctv_tcp_server.Endian.{htonll, ntohll, bytes_le, bytes_be}
use raspi_cctv_tcp_server.Endian.NetworkOrder.{bytes_le-htonll, ntohll-htonll}
use raspi_cctv_tcp_server.Exec.{ok}
use raspi_cctv_tcp_server.Stream.{decimal}
use raspi_cctv_tcp_server.Stream.Words.{IsWord}
use raspi_cctv_tcp_server.Stream.Numbers.{IsDigits}
use raspi_cctv_tcp_server.Server.Response.{uploaded}
use raspi_cctv_tcp_server.Server.Session.{returned, serve_command, handle_client}
use raspi_cctv_tcp_server.Server.Session.Pictures.{upload_line, image_line}
use raspi_cctv_tcp_server.Server.Net.{Link}
use raspi_cctv_tcp_server.Server.Session.Framing.{AfterUpload, handle_client-upload}
use raspi_cctv_tcp_server.Server.Session.RoundTrip.{get_image-upload}
use raspi_cctv_tcp_server.Server.Images.{
  full_path, handle_image_upload, handle_get_image, send_chunks,
}
use raspi_cctv_tcp_server.Server.Images.Upload.{Uploads, handle_image_upload-Uploads}
use raspi_cctv_tcp_server.Server.Images.Sending.{handle_get_image-Hangs}
use raspi_cctv_tcp_server.Tests.Disk.{disks-FilesContract}
use raspi_cctv_tcp_server.Tests.Wire.{
  Wire, wires, wires-Healthy, wires-incoming, wires-TlsContract, swap_bytes, swap_bytes-NetContract,
}
use raspi_cctv_tcp_server.Tests.Sample.{env, link, world}

handle_image_upload-Uploads_example :
    Uploads env wires disks-FilesContract wires-TlsContract
      (codes "new.jpg")
      5
      link
      (handle_image_upload env wires (codes "new.jpg") 5 link)
handle_image_upload-Uploads_example =
    handle_image_upload-Uploads env wires disks-FilesContract wires-TlsContract (codes "new.jpg") 5
      link (omega arith)

handle_get_image-Hangs_example :
    (handle_get_image env wires (codes "images") link ≡ none)
    × ((fuel : ℕ) (c : Wire) → send_chunks env wires false fuel [] c ≡ none)
unfolding text_eq c_str
handle_get_image-Hangs_example =
    handle_get_image-Hangs env wires disks-FilesContract (λ c t. refl) (codes "images") link
      (2 ^ 63 - 1) [] refl

bytes_le-htonll_example :
    bytes_le 8 (htonll swap_bytes 81985529216486895) ≡ bytes_be 8 81985529216486895
bytes_le-htonll_example =
    bytes_le-htonll swap_bytes swap_bytes swap_bytes-NetContract 81985529216486895 (omega arith)

ntohll-htonll_example : ntohll swap_bytes (htonll swap_bytes 81985529216486895) ≡ 81985529216486895
ntohll-htonll_example =
    ntohll-htonll swap_bytes swap_bytes swap_bytes-NetContract 81985529216486895 (omega arith)

abbrev new_name : Text
new_name = codes "new.jpg"

abbrev five : Text
five = codes "5"

new_name-IsWord : IsWord new_name
new_name-IsWord = (refl, (refl, (refl, (refl, (refl, (refl, (refl, (refl, tt))))))))

five-IsDigits : IsDigits five
five-IsDigits = (refl, (refl, tt))

new_name-uploaded :
    (handle_image_upload env wires new_name (decimal 0 five) link).0
    ≡ ok (uploaded (full_path new_name))
unfolding handle_image_upload decimal text_eq c_str
new_name-uploaded = refl

get_image-upload_example :
    let image = take (decimal 0 five) (wires-TlsContract.incoming link.conn) in
    let later = (serve_command env wires (upload_line new_name five) link).1 in
    let o = serve_command env wires (image_line (full_path new_name)) later in
    (length image ≡ decimal 0 five)
    × (o.0 ≡ ok (returned true))
    × (wires-TlsContract.sent o.1.conn
        ≡ wires-TlsContract.sent later.conn ++ (bytes_be 8 (decimal 0 five) ++ image))
unfolding decimal
get_image-upload_example =
    get_image-upload env wires disks-FilesContract wires-TlsContract (λ c t. refl) swap_bytes
      swap_bytes-NetContract new_name five link
      (serve_command env wires (upload_line new_name five) link).1 new_name-IsWord five-IsDigits
      refl (omega arith) new_name-uploaded refl

-- The same upload from the start of its line, with another line behind it.
abbrev picture : Text
picture = codes "BYTES"

abbrev behind : Text
behind = codes "GET_LOG" ++ 10 ∷ []

abbrev sender : Link env wires
sender = record {
  world = world;
  conn = record { incoming = upload_line new_name five ++ (picture ++ behind); sent = [] };
}

sender-lt : length (wires-TlsContract.incoming sender.conn) < 40
sender-lt = rw (wires-incoming sender.conn) (omega arith)

handle_client-upload_example :
    AfterUpload env wires disks-FilesContract wires-TlsContract wires-Healthy
      (full_path new_name)
      picture
      behind
      sender
      39
      (handle_client env wires 40 sender)
unfolding decimal
handle_client-upload_example =
    handle_client-upload env wires disks-FilesContract wires-TlsContract wires-Healthy new_name five
      picture behind sender 39 new_name-IsWord five-IsDigits refl (omega arith) refl
      (wires-incoming sender.conn) sender-lt
