-- ===== src/Lib.antt =====
-- The library models the parts of go-fula, the software of a Blox storage device, that decide who
-- may use the device and which pool the device belongs to, with the theorems that make them
-- correct.
--
-- The phone of the owner sends signed HTTP requests over libp2p. blockchain/proxy.go verifies the
-- signature (blockchain/auth_signed.go), asks the access rules (blockchain/blockchain.go) and
-- hands the request to a handler. Two of the ways to leave a pool, the leave request and the
-- periodic reconcile (blockchain/bl_pool.go), ask the pool contract on an EVM chain for the
-- membership of the device, by JSON-RPC (blockchain/blockchain.go) with the encoding of
-- blockchain/abi/contract.go and of blockchain/peerid_utils.go, and then clear the pool in
-- config.yaml (cmd/blox/main.go), which restarts the services. ping/ping.go answers the pings of
-- other devices, and blockchain/bl_plugins.go keeps the list of active plugins.
-- blockchain/bl_autopin.go pairs the device with a pinning service, and blockchain/bl_nas.go gives
-- the owner the credentials of the network share. exchange/fx_exchange.go moves blocks between
-- devices, announcements/announcements.go handles the messages of a pool's topic, and
-- wap/pkg/server is the server that a phone or a browser sets the device up with. blox/kubo_proxy.go
-- keeps the device's IPFS node forwarding requests to it, and mobile is the library of the app.
--
-- Access/Actions: the action constants of blockchain/interface.go and their paths. Access/Signing:
-- verifySignedRequest and signRequest; an int64 is its bit pattern below 2^64, and libp2p keys,
-- hashes and printed numbers are the fields of Platform. Access/Proxy: serveProxy, authorized,
-- SetAuth, handleAuthorization and dispatch on the state Server; a handler behind dispatch is a
-- name.
--
-- Evm/Hex: strconv and encoding/hex on texts of bytes. Evm/Abi and Evm/Abi/Strings: the encoders
-- and decoders of abi/contract.go; a panic of Go is an outcome of its own. Evm/Rpc: callEVMChain,
-- callEVMChainWithRetry and strictEthCall against a Network, whose ticks count the answers; the
-- retries recurse on the attempts that are left. Evm/PeerIds: peerIdToBytes32 and bytes32ToPeerId.
--
-- Pool: the state World of a device and the environment Env, which decides at each tick whether
-- files can be read and written, what a failed write leaves, and what other goroutines do to the
-- config. Pool/Settings: the accessors of the config and of the marker files, clearPoolConfig and
-- cleanLeaveJoinPool. Pool/Status: ClusterPeerPoolStatus, validatePoolOnChain, discoverPoolChain.
-- Pool/Leave: HandlePoolLeave. Pool/Join: HandlePoolJoin. Pool/Membership: HandleIsMemberOfPool.
-- Pool/Creator: GetPoolCreatorPeerID. Pool/Cancel: HandlePoolCancelJoin, with callBlockchain and
-- checkIfUserHasOpenPoolRequests of blockchain/blockchain.go. Pool/Listing: HandleEVMPoolList, a
-- loop with fuel, since an index that is skipped is not counted against its limit; it ends with
-- the context. Pool/Reconcile: ReconcilePoolConfig; its two readings of the clock are arguments.
-- The hooks of the config are taken as set, which the options of the package see to, and the hook
-- of the restart is counted when it is scheduled. The prints of numbers have fuel for the 19
-- digits of an int64.
--
-- Ping: the server of ping/ping.go, its limit and its life cycle, and what the client checks in a
-- response. The option `count` is taken as not negative, and three times it does not overflow.
--
-- Plugins: the file of active plugins of blockchain/bl_plugins.go, install and uninstall.
-- Plugins/Updates: the queue of updates and listActivePluginsImpl. Plugins/Output: the output and
-- the status of an install. A parameter list is split with as much fuel as it has bytes, and each
-- split takes at least four.
--
-- AutoPin: the handlers of blockchain/bl_autopin.go on box_props.json; the file is the map that is
-- read back from it, a missing or refused file, or the JSON null. Nas: handleNasCredentials;
-- Nas/Released puts it behind the proxy of Access.
--
-- Exchange/Peers: who may push to a device, SetAuth, the temporary authorizations and their
-- cleanup; Exchange/Peers/Abstract: these maps as two functions; Exchange/Peers/History: what the
-- calls before a push say of it.
-- Exchange/Requests: serve, the three handlers, Pull and PullBlock; libp2p, go-cid, go-ipld-prime
-- and encoding/json are the fields of Platform. Each call is one step, and
-- Exchange/Requests/Temporary has sequences of them. Exchange/Retry: pushOneNode and
-- retryWithBackoff, whose loop recurses on the attempts that are left.
--
-- Exchange/Publisher: the loop of exchange/ipni_publisher.go and hub_publisher.go, whose events
-- may come in any order.
--
-- Kubo: the calls of blox/kubo_proxy.go to the API of kubo, each at a tick, with HTTP and
-- encoding/json as fields of a record. Kubo/Watch: watchKuboP2P; the readings of the clock are
-- arguments of a tick. Kubo/Target: resolveProxyTargetIP. Kubo/Server: fetchServerKuboPeerID and
-- its file.
--
-- Announcements: ValidateAnnouncement, and the loop over the messages as recursion on what
-- sub.Next gives. Wap/Cors: withCORS and lanSetupGuard; strings.ToLower, TrimSpace and EqualFold
-- are fields of Env. Wap/Lan: startLANSetupWatch with the closer of server.go; a tick that Close
-- interrupts is two ticks. Wap/Lan/Shut: what becomes of the listeners.
--
-- Manifests: the calls of blockchain/bl_manifest.go to the node's own chain and
-- convertMobileRequestToFullRequest; Manifests/Replicate: handleReplicateInPool; Manifests/Upload:
-- handleActionManifestBatchUpload and getClusterEndpoint of blockchain/blockchain.go. The
-- ipfs-cluster, encoding/json and net/http are fields of records.
--
-- Client: the methods of FxBlockchain by which a phone asks a device, each an Operation of
-- Client/Operations. Client/Device: the handlers of blockchain/blox.go and
-- blockchain/blockchain.go that call the functions of wap/pkg/wifi, and handleAction; these
-- functions run commands of the system and are fields of Wifi. Client/Node: a device, which
-- answers a client with the access rules, the dispatch of Access and these handlers; the handlers
-- of other modules are a field of Node.
--
-- Chat: handleChatWithAI and ChatWithAI of blockchain/blox.go, on the chunks of the model and on
-- what the turns of the client's loop find; encoding/json is a parameter. Chat/Stream: the
-- StreamBuffer between them, a channel of 100 chunks, and GetChatChunk of mobile/blockchain.go,
-- whose loop has the number of its turns as an argument. Chat/Iterator: mobile/stream_iter.go as
-- steps, with the goroutines of HasNext. A call that waits for the lock of the buffer is left out.
--
-- Mobile: the life of the client of mobile/client.go. What beginOp and Shutdown do under lifeMu is
-- one step, and Step has the steps of any number of goroutines in any order. Mobile/Connection:
-- ensureConnected, ConnectToBlox and Ping, for any host of libp2p; Mobile/Connection/Pinged: the
-- result of Ping against the outcomes of its pings. Mobile/Requests: what a call of
-- the app is; Mobile/Requests/Calls: the methods of mobile/blockchain.go, each on its Operation of
-- Client. The text of a request, strconv and encoding/json are fields of Phone.
--
-- Modules named Examples have concrete runs. Not modelled: the catalogue of plugins and the
-- dispatch of their actions, the periodic announcements, the walk over a DAG in Push, the DHT and
-- the IPNI engine of the exchange, the routes of the setup server, the members that are read from
-- the node's own chain at intervals, and the rest of blox, cmd/blox, wap/pkg/wifi and mobile, most
-- of which runs shell commands, the network or the file system. Logging is left out throughout.
mod Prelude
pub mod Access
pub mod Announcements
pub mod AutoPin
pub mod Chat
pub mod Client
pub mod Evm
pub mod Exchange
pub mod Kubo
pub mod Manifests
pub mod Mobile
pub mod Nas
pub mod Pool
pub mod Ping
pub mod Plugins
pub mod Wap
