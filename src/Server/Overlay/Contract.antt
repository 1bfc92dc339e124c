-- ===== src/Server/Overlay/Contract.antt =====
-- What the handlers rely on the file system and the json library for.
use raspi_cctv_tcp_server.Prelude.{
  ℕ, Option, none, some, true, false, String, Text, c_str, ◌≡◌, ◌≢◌, ◌++◌, [],
}
use raspi_cctv_tcp_server.Server.Env.{Json, Files}

-- Opening, writing and removing a file concerns that file only. A path ends at its first zero byte.
pub record FilesContract (F : Files) : Type 0 where
  pub read-create : (d d' : F.Disk) (p : Text) → F.create d p ≡ some d' → F.read d' p ≡ some []
  pub read-create_ne :
      (d d' : F.Disk) (p q : Text)
      → F.create d p ≡ some d'
      → c_str p ≢ c_str q
      → F.read d' q ≡ F.read d q
  -- a write that fails may have written a first part
  pub read-append :
      (d : F.Disk) (p s t : Text)
      → F.read d p ≡ some s
      → (u r : Text) × (u ++ r ≡ t) × (F.read (F.append d p t) p ≡ some (s ++ u))
  -- a stream that is good at the end has written all
  pub read-append_good :
      (d : F.Disk) (p s t : Text)
      → F.closes_well (F.append d p t) p ≡ true
      → F.read d p ≡ some s
      → F.read (F.append d p t) p ≡ some (s ++ t)
  -- a stream that has failed is not good again
  pub closes_well-append :
      (d : F.Disk) (p t : Text) → F.closes_well (F.append d p t) p ≡ true → F.closes_well d p ≡ true
  pub read-append_ne :
      (d : F.Disk) (p q t : Text) → c_str p ≢ c_str q → F.read (F.append d p t) q ≡ F.read d q
  pub read-remove : (d d' : F.Disk) (p : Text) → F.remove d p ≡ some d' → F.read d' p ≡ none
  pub read-remove_ne :
      (d d' : F.Disk) (p q : Text)
      → F.remove d p ≡ some d'
      → c_str p ≢ c_str q
      → F.read d' q ≡ F.read d q
  -- a directory is no file that can be read to its end
  pub read-create_directory :
      (d d' : F.Disk) (p q : Text) → F.create_directory d p ≡ some d' → F.read d' q ≡ F.read d q
  pub exists_read : (d : F.Disk) (p : Text) → F.exists d p ≡ some false → F.read d p ≡ none
  -- what can be opened and not read to its end is not a file that can be read to its end
  pub unreadable_read :
      (d : F.Disk) (p : Text) (n : ℕ) (t : Text)
      → F.unreadable d p ≡ some (n, t)
      → F.read d p ≡ none

-- Values are read back as they were written, and have fields by name.
pub record JsonContract {Float : Type 0} (J : Json Float) : Type 0 where
  pub parse-dump : (v : J.Value) (t : Text) → J.dump v ≡ some t → J.parse t ≡ some v
  pub field : J.Value → String → Option J.Value
  pub field-set :
      (v v' : J.Value) (k : String) (x : J.Value) → J.set v k x ≡ some v' → field v' k ≡ some x
  pub field-set_ne :
      (v v' : J.Value) (k j : String) (x : J.Value)
      → J.set v k x ≡ some v'
      → k ≢ j
      → field v' j ≡ field v j
  pub field-erase : (v v' : J.Value) (k : String) → J.erase v k ≡ some v' → field v' k ≡ none
  pub field-erase_ne :
      (v v' : J.Value) (k j : String) → J.erase v k ≡ some v' → k ≢ j → field v' j ≡ field v j
  -- only objects have fields, and the text of an object that lacks its end is no json
  pub parse-torn :
      (v x : J.Value) (k : String) (s r : Text)
      → field v k ≡ some x
      → J.dump v ≡ some (s ++ r)
      → r ≢ []
      → J.parse s ≡ none
  pub string_injective : (s t : Text) → J.string s ≡ J.string t → s ≡ t
