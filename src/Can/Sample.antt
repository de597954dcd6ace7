-- ===== src/Can/Sample.antt =====
-- A node with one writable variable, for the instances of what is proved.
use emblib.Base.{
  ℕ, refl, sym, subst, ◌∙◌, true, false, Bool, none, some, List, [], ◌∷◌, ◌++◌, arith, inl, inr,
}
use emblib.Container.InplaceQueue.{empty_queue}
use emblib.Container.InplaceQueue.Refine.{QueueHolds}
use emblib.Container.CircularBuffer.Holds.{empty_buffer-Holds}
use emblib.Container.CircularBuffer
use emblib.Can.{Payload, bytes, standard, Frame, Transport}
use emblib.Can.Sdo.{ExpeditedSdo, empty_sdo, raw}
use emblib.Can.Od.{OdValue, uint8_value, uint8, OdAccess, OdEntry, od_read_var, od_write_var}
use emblib.Can.Dictionary.Find.{KeysDistinct}
use emblib.Can.SdoServer.{SdoServer, tsdo_queue_capacity}
use emblib.Can.SdoServer.Serves.{IsBacked, AllBacked}

-- A bus that takes every frame and remembers it, and a clock that stands at the application's state.
abbrev pub recorder : Transport (List Frame)
recorder = record { send = λ f b. (true, b ++ f ∷ []); add_filter = λ _ _ _ b. b }

abbrev pub is_uint8 : OdValue → Bool
is_uint8 (uint8_value _) = true
is_uint8 _ = false

abbrev pub assign_uint8 : OdValue → ℕ → ℕ
assign_uint8 (uint8_value v) s = v
assign_uint8 _ s = s

abbrev pub variable : OdEntry ℕ
variable = record {
  key = record { index = 0x2000; subindex = 1 };
  object = record {
    access = OdAccess.rw;
    data_type = uint8;
    default_value = none;
    read = some (od_read_var (λ s. uint8_value s));
    write = some (od_write_var is_uint8 assign_uint8);
  };
}

abbrev pub variable_only : List (OdEntry ℕ)
variable_only = variable ∷ []

pub variable_only-KeysDistinct : KeysDistinct variable_only
variable_only-KeysDistinct d e (inl p) (inl q) k = sym p ∙ q
variable_only-KeysDistinct d e (inl p) (inr absent) k = absurd absent
variable_only-KeysDistinct d e (inr absent) q k = absurd absent

pub variable_only-AllBacked : AllBacked variable_only
variable_only-AllBacked e (inl p) =
    subst (λ d. IsBacked d.object) p
      (record {
        reads = λ _. (od_read_var (λ s. uint8_value s), refl);
        writes = λ _. (od_write_var is_uint8 assign_uint8, refl);
      })
variable_only-AllBacked e (inr absent) = absurd absent

abbrev pub new_sdo : SdoServer ℕ
new_sdo = record { dictionary = variable_only; tsdo_queue = empty_queue 16 }

pub nothing_waits : QueueHolds {A = Payload} tsdo_queue_capacity (empty_queue 16) []
unfolding empty_queue
nothing_waits =
    unfold CircularBuffer.empty_buffer in empty_buffer-Holds 16 (omega arith) (omega arith)

-- A download of 7 to the variable, as node 5 receives it.
abbrev pub download_frame : Frame
download_frame = record {
  format = standard;
  id = 0x605;
  len = 8;
  payload = bytes 0x2F 0x00 0x20 1 7 0 0 0;
}

abbrev pub download : ExpeditedSdo
download = record empty_sdo { cs = 1; index = 0x2000; subindex = 1; content = raw 7 0 0 0 }
