-- ===== src/Amf.antt =====
-- The AMF values of src/rtmfp/amf.go.
pub mod Number
pub mod NumberTrip
pub mod Value
pub mod ValueTrip
pub mod ObjectTrip
