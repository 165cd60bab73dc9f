-- ===== src/Lib.antt =====
-- Iskra, a messenger whose nodes store encrypted messages and carry them from peer to peer.
--
-- The parts and how they interact:
--   * Crypto models internal/crypto: the proof of work (pow.go, `solve_pow`, `verify_pow`), the
--     obfuscation stream and the sealed payload (encrypt.go, `encrypt`, `decrypt`) and signatures
--     (sign.go). The Go packages are the record `Primitives`; what they document is `Laws`.
--   * Message models internal/message: the wire format (serialize.go, `serialize`, `deserialize`), the
--     identifier, the signed bytes and the constructors of messages (message.go, `new_with_type`), and
--     the constants of types.go.
--   * Identity models internal/identity: Base58 (base58.go, `to_base58`, `from_base58`), `user_id` of
--     keys.go, the key pair of a seed (`keypair_from_seed`) and the mnemonic (mnemonic.go,
--     `seed_to_mnemonic`, `mnemonic_to_seed`, `validate_mnemonic`). The word list and
--     strings.TrimSpace are arguments.
--   * Store.Hold models internal/store/hold.go: `store_with_ttl`, `get_for_sync`, `mark_forwarded`,
--     `cleanup`, `delete` on the record `Hold`, that is the message files, the map in memory and the map
--     as it was saved. `Disk` says which files can be read and written and whether the directory can
--     be listed. `Step` and `Reach` are the sequences of operations.
--   * Store.Bloom models internal/store/bloom.go, the filter of identifiers that were seen.
--   * Mesh.Node models internal/mesh/sync.go, where an incoming message meets the filter, the signature
--     and the hold; Mesh.Transport the frames and the command handlers of internal/mesh/transport.go;
--     Mesh.Peer internal/mesh/peer.go; Mesh.Pool internal/mesh/relay_pool.go.
--   * Store.Contacts models internal/store/contacts.go: the list, its file and the vault key (`add`,
--     `rename`, `delete`, `update_last_seen`, `update_x25519`, `load`, `save`). Store.First has the
--     loops over its entries and Store.Files the encryption of its file.
--   * Store.Groups, Store.Channels and Store.Inbox model internal/store/groups.go, channels.go and
--     inbox.go (its files in Store.Inbox.Saved, the letters in Store.Inbox.Letters); Store.History has
--     what their histories share (`add_message`, `add_post`).
--   * Mesh.Udp models internal/mesh/udp.go and the relay of cmd/udp-relay/main.go: the disguise of a
--     datagram (`obfuscate`, `deobfuscate`), what a node sends and reads, and `relay_packet`.
--   * Mesh.Dns models internal/mesh/dns.go and the relay of cmd/dns-relay/main.go: the queries of a
--     frame (`send_frame`), their reassembly on both sides (`store_chunk`), `handle_send` and the
--     messages that wait for a poll.
--   * Mesh.Discovery models internal/mesh/discovery.go: the beacons (`make_beacon`, `parse_beacon`), a
--     round of the listening loop (`hear_beacon`) and the choice of interfaces.
--   * Mesh.RelayClient models internal/mesh/relay.go, the client's side of a relay (`send_message`,
--     `read_frame`, `connect`, `reconnect`).
--   * FileTransfer models internal/filetransfer/transfer.go: chunks, headers and reassembly.
--   * Security models internal/security/pin.go and vault.go: PINs, failed attempts, the vault.
--   * Relay models cmd/relay/main.go, the server that clients meet on. handleWS is three functions of
--     Relay.Server: `connect` is what it does up to its loop, `receive` one round of the loop and
--     `disconnect` what follows; Relay.Pool is the exchange of relay addresses. The handler takes its
--     lock several times in each of them; the model takes each as one step.
--   * Web models internal/web/api.go. Web.Incoming is HandleIncomingMessage (`handle_incoming`), with
--     Web.GroupTexts and Web.Posts for what it does with groups and channels; Web.Send, Web.SendGroup,
--     Web.SendFile and Web.Publish are the handlers that send; Web.Lock and Web.Session the handlers of
--     the PIN and of panic, Web.Account those of restoring and of the master login, Web.Books those of
--     contacts and chats, over the files that internal/security/wipe.go removes and
--     internal/security/decoy.go writes. A handler returns the messages that it hands to the transports,
--     and `none` where Go panics.
-- Base holds what they share: byte strings, machine words of encoding/binary, maps, hexadecimal.
--
-- How the code corresponds: a method on a struct is a function that takes and returns a record; an
-- error is a value of `Result` or `Option`; clocks, random bytes, file and network answers are
-- arguments. Numbers are natural; an int64 is kept as its 64-bit pattern, and a word is cut with `%`
-- where the code lets it wrap. Files can be removed. A Go map is an association list. But for the handlers of the relays,
-- every mutex is held for a whole method, so methods are atomic steps.
--
-- Bounds and fuel: `solve_from` counts down the nonces that are left to try, and the loops of the
-- Bloom filter, the chunks and the frames count down their own length. `to_digits` divides a number by
-- 58 with the number itself as fuel, which is enough since each division makes it smaller. `key_loop`
-- of Mesh.Udp has the length of the keystream as fuel, and each round adds a block; `split_loop` of
-- Mesh.Dns has the length of the text as fuel, and each round takes at least one byte; `stream_loop` of
-- Crypto.Stream has the length that is asked for as fuel, and each round adds a block of 32 bytes. No
-- other function has fuel.
--
-- Not modelled: of the web interface the handlers that only answer from the stores, update or back up;
-- of the relay server the choice of aliases and the pages that only read; the mobile bindings and the
-- programs iskra and lara; telemetry and the firewall; the texts of the decoy; the floating-point
-- sizing in NewBloom; the loop of handleConnection around its commands; goroutines, sockets and
-- deadlines.
pub mod Base
pub mod Crypto
pub mod Message
pub mod Identity
pub mod Store
pub mod Mesh
pub mod FileTransfer
pub mod Security
pub mod Relay
pub mod Web
