-- ===== src/Admission.antt =====
-- internal/admission: the gates that count a proxy's requests and that drain barriers close.
pub mod Gates
pub mod Barriers
pub mod Acks
