-- ===== src/Lib.antt =====
-- Verification library of packet-radio-rs, an amateur packet radio modem, TNC and APRS toolkit in
-- Rust.
--
-- The core crate (core/src) turns audio into bits (modem), bits into AX.25 frames (ax25/frame.rs),
-- frames into parsed addresses and payloads (ax25/mod.rs), and exchanges frames with a host over
-- the KISS serial protocol (kiss/mod.rs); FX.25 (fx25) adds Reed-Solomon parity around HDLC
-- frames. The other crates (desktop, aprs-viewer, reference, fcc-data, boards) are user
-- interfaces, services and firmware around that core.
--
-- Base holds what all parts share: Boolean tests, arrays and slices as lists over the native
-- numbers, and the laws of the bit operations. A byte or word is a native number; a cast or shift
-- writes its wrap-around out; an array of the source is a list of its length, with set for a
-- write.
--
-- Kiss models core/src/kiss/mod.rs: Command.from_byte and to_byte, the decoder KissDecoder with
-- new, reset, feed_byte and push_byte, and encode_frame with its bounds-checked writes. feed_byte
-- returns the new decoder and the reported packet. run and packets fold it over a list of bytes,
-- as the callers do. Kiss.Unescape has unescape, the description of the decoder that its packets
-- are compared with.
--
-- Ax25.Address and Ax25.Frame model Address and Frame::try_parse of core/src/ax25/mod.rs: the loop
-- over the digipeaters is read_route, and a slice that ends early is a shorter list, which
-- address_at refuses; Ax25.Frame.Extent says how far the addresses of any bytes go. Ax25.Build
-- models build_test_frame and address_from_str of core/src/ax25/frame.rs. Ax25.Link puts encoder,
-- decoder and parser together.
--
-- Ax25.Crc models crc16_ccitt bit by bit. Ax25.Hdlc models core/src/ax25/frame.rs: EncodedFrame,
-- push_bit, emit_flag and hdlc_encode; HdlcDecoder with new, reset and feed_bit, and feed_bits as
-- run and frames. The count of ones and the indices are u8 and usize in the source; they never
-- reach their width, as the invariants show.
--
-- Modem.Scrambler models core/src/modem/scrambler.rs: the register of 17 bits, scramble and
-- descramble; scramble_all and descramble_all run them over a stream of bits.
--
-- Fx25.Gf256 models core/src/fx25/gf256.rs: GF_EXP and GF_LOG are computed by their loops, and
-- what is proved of them by running through all their entries carries the laws of the field.
--
-- Fx25.Tags models the tag table, match_tag and select_tag of core/src/fx25/mod.rs; their loops
-- keep the best index so far, as the source does.
--
-- Fx25.Rs models the decoder of core/src/fx25/rs.rs: compute_syndromes, berlekamp_massey,
-- chien_search, forney and rs_decode. rs_decode computes the syndromes of the padded block before
-- its guards; the guards are pure, so that their order does not matter. What an earlier loop
-- leaves in an array is passed on as a list.
--
-- Modem.FrameOutput models core/src/modem/frame_output.rs: a buffer is the list of its frames,
-- whose length is its capacity, and the count of the frames in use.
--
-- Modem.SoftHdlc models core/src/modem/soft_hdlc.rs: Defs has the state, Validity the check of
-- addresses, Recovery the syndrome correction, the trials of each phase and the reassembly, Feed
-- the state machine. A phase is the list of its trials in the order its loops visit them, so that
-- one search serves all five; a soft value is an integer by pos and negsuc, and a counter keeps
-- its wrap-around. The loops over addresses and bits recur on the rounds that the source bounds.
--
-- Fx25.Rs.Encode models generator_poly and rs_encode, Fx25.Encode the encoder of
-- core/src/fx25/encode.rs (push_bit! is push_bit on the bytes and the bit position), and
-- Fx25.Decode the decoder of core/src/fx25/decode.rs, one function per arm and step of feed_bit.
-- Fx25.Link puts encoder, bits and decoder together: the bits of a packed buffer, the linearity of
-- evaluation over GF(256) and the HDLC round trip of Ax25.Hdlc meet there.
--
-- Aprs.Nmea models core/src/aprs/nmea.rs: Digits has the numbers, coordinates, times and dates,
-- Fields the split at commas, and Nmea itself the checksum and the two sentence types. A slice is
-- a list, an i32 is an integer by pos and negsuc that is made from its 32 bits.
--
-- Tnc.Outbox is KissOutbox of core/src/tnc.rs, the ring buffer from which KISS bytes go to the
-- transports, with all its operations; Op is a use of write or read, and run applies a list of
-- them. The loop of read runs once for each byte read.
--
-- Tnc.TxQueue is TxQueue of the same file, the ring of four frames that wait to be sent, with all
-- its operations; an array of arrays is a list of lists.
--
-- Loops over slices are structural recursion, counted loops recur on the rounds left; the while
-- loop of forney has num_errors rounds, which are enough because its index starts at 1 and grows
-- by 2.
--
-- Not modelled: the filters, correlators and clock recovery of core/src/modem, whose correctness
-- is a matter of signal statistics; the position, message and weather parsers of
-- core/src/aprs/mod.rs, modem/hdlc_bank.rs, modem/fixed_vec.rs, and of core/src/tnc.rs what is not
-- its two queues; the platform traits, audio, sockets, databases and user interfaces, which are
-- input and output.
pub mod Base
pub mod Kiss
pub mod Ax25
pub mod Modem
pub mod Fx25
pub mod Aprs
pub mod Tnc
