-- ===== src/Desktop/Vault/Reopen.antt =====
-- A vault that is locked, and unlocked again.
use vault_keep.Base.{
  ℕ, none, some, true, List, [], ◌∷◌, String, get_elem?, truthy, ok, throw, ◌≡◌, length,
}
use vault_keep.Base.Dict.{Dict, get, put}
use vault_keep.Desktop.Vault.{
  VaultItem, Key, Runtime, VaultApp, lock, with_buffer, next_address, zeroed, unlock, Result,
  unlock_with_key,
}

module _ {V : Type 0} where
  -- Each key is not among those before it.
  abbrev pub Distinct : Dict V → Dict V → Type 0
  Distinct before [] = Unit
  Distinct before ((k, v) ∷ m) = (get k before ≡ none) × Distinct (put k v before) m

-- Items stand under their own ids.
abbrev pub HasIds : Dict VaultItem → Type 0
HasIds [] = Unit
HasIds ((k, i) ∷ m) = (i.id ≡ k) × HasIds m

-- Keys are distinct, and items stand under their own ids.
abbrev pub IsTidy : VaultApp → Type 0
IsTidy app = Distinct [] app.items × HasIds app.items × Distinct [] app.meta

-- What the vault relies on of its cipher: under a key of 32 bytes, a text is encrypted to a blob that is not
-- empty, and that the key decrypts to the text.
pub record IsCipher (rt : Runtime) : Type 0 where
  pub decrypt-encrypt :
      (key : Key) (n : ℕ) (text : String)
      → length key ≡ 32
      → (blob : String) × ((rt.encrypt key n text ≡ ok blob)
          × ((truthy blob ≡ true) × (rt.decrypt key blob ≡ ok text)))

module _ (rt : Runtime) where
  -- The other key does not open what this one makes of a text with a nonce.
  abbrev pub Rejects : Key → Key → ℕ → String → Type 0
  Rejects other key n text =
      (blob : String)
      → rt.encrypt key n text ≡ ok blob
      → (e : String) × (rt.decrypt other blob ≡ throw e)

  -- A vault that was returned with an item, locked and unlocked.
  abbrev pub Reopens :
      ℕ → Key → Key → VaultItem → String → String → String → Result VaultItem → Type 0
  Reopens at key other item salt password wrong (app, result) =
      (result ≡ ok item)
      × ((get item.id app.items ≡ some item)
          × ((get_elem? (lock app).buffers at ≡ some (zeroed key))
              × ((unlock rt (lock app) salt password ≡ (
                record app {
                  buffers = (with_buffer (lock app) key).buffers;
                  key = some (next_address (lock app));
                },
                ok tt,
              ))
                  × (((e : String) × (unlock rt (lock app) salt wrong
                          ≡ (with_buffer (lock app) other, throw e)))
                      × ((e : String) × (unlock_with_key rt (lock app) at
                            ≡ (lock app, throw e)))))))
